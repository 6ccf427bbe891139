-- ===== src/World/Tokens.antt =====
-- The tokens of a shard: how often its id stands in the ready channel, with a submitter that is about
-- to send it, or with a worker that has it or will send it back.
use go_keylane.Base.{
  Bool, refl, ◌≢◌, ℕ, zero, suc, ◌+◌, ◌≡◌, ap, true, false, some, List, [], ◌∷◌, ◌++◌, arith,
  get_elem?, set, ◌==◌, if◌then◌else◌,
}
use go_keylane.Job.{InternalJob}
use go_keylane.World.Defs.{Sender, target, Worker, idle, received, running, exited, World}

abbrev pub hit : ℕ → ℕ → ℕ
hit i j = if i == j then 1 else 0

unfoldable pub count : ℕ → List ℕ → ℕ
count j [] = 0
count j (i ∷ is) = hit i j + count j is

-- The ids that the senders are to send.
unfoldable pub count_senders : ℕ → List Sender → ℕ
count_senders j [] = 0
count_senders j (s ∷ ss) = hit (target s) j + count_senders j ss

abbrev pub held : ℕ → Worker → ℕ
held j idle = 0
held j exited = 0
held j (received i) = hit i j
held j (running i jobs true) = hit i j
held j (running i jobs false) = 0

unfoldable pub count_workers : ℕ → List Worker → ℕ
count_workers j [] = 0
count_workers j (w ∷ ws) = held j w + count_workers j ws

unfoldable pub tokens : ℕ → World → ℕ
tokens j w = count j w.sched.ready_ch + count_senders j w.senders + count_workers j w.workers

pub count-append : (j : ℕ) (xs ys : List ℕ) → count j (xs ++ ys) ≡ count j xs + count j ys
unfolding count
count-append j [] ys = omega arith
count-append j (x ∷ xs) ys = omega (arith, count-append j xs ys)

pub count_senders-append :
    (j : ℕ) (xs ys : List Sender)
    → count_senders j (xs ++ ys) ≡ count_senders j xs + count_senders j ys
unfolding count_senders
count_senders-append j [] ys = omega arith
count_senders-append j (x ∷ xs) ys = omega (arith, count_senders-append j xs ys)

pub count_workers-set :
    (j : ℕ) (ws : List Worker) (k : ℕ) (old new : Worker)
    → get_elem? ws k ≡ some old
    → count_workers j (set ws k new) + held j old ≡ count_workers j ws + held j new
unfolding count_workers
count_workers-set j [] k old new h = cc
count_workers-set j (w ∷ ws) zero old new h =
    let same : w ≡ old = cc in omega (arith, ap (held j) same)
count_workers-set j (w ∷ ws) (suc k) old new h = omega (arith, count_workers-set j ws k old new h)

pub count-cons : (j i : ℕ) (is : List ℕ) → count j (i ∷ is) ≡ hit i j + count j is
unfolding count
count-cons j i is = refl

pub count-nil : (j : ℕ) → count j [] ≡ 0
unfolding count
count-nil j = refl

pub count-send : (j i : ℕ) (is : List ℕ) → count j (is ++ i ∷ []) ≡ count j is + hit i j
unfolding count
count-send j i is = omega (arith, count-append j is (i ∷ []))

pub count_senders-middle :
    (j : ℕ) (xs ys : List Sender) (s : Sender)
    → count_senders j (xs ++ s ∷ ys) ≡ count_senders j (xs ++ ys) + hit (target s) j
unfolding count_senders
count_senders-middle j xs ys s =
    omega (arith, count_senders-append j xs (s ∷ ys), count_senders-append j xs ys)

pub count_senders-cons :
    (j : ℕ) (s : Sender) (ss : List Sender)
    → count_senders j (s ∷ ss) ≡ hit (target s) j + count_senders j ss
unfolding count_senders
count_senders-cons j s ss = refl

pub hit_self : (i : ℕ) → hit i i ≡ 1
hit_self i = ground arith

pub hit_ne : (i j : ℕ) → i ≢ j → hit i j ≡ 0
hit_ne i j h = ground arith

pub held-running_ne :
    (i j : ℕ) (jobs : List InternalJob) (has_more : Bool)
    → i ≢ j
    → held j (running i jobs has_more) ≡ 0
held-running_ne i j jobs true h = hit_ne i j h
held-running_ne i j jobs false h = refl
