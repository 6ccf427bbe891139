-- ===== src/Shard/Enqueuing.antt =====
-- What enqueueIntoShard of internal/core/enqueue.go does to a shard, on every branch.
use go_keylane.Base.{
  ℕ, suc, zero, ◌<◌, ◌≡◌, ◌⊎◌, inl, inr, refl, ap, ◌∙◌, Bool, true, false, not, none, some, List,
  [], ◌∷◌, ◌++◌, map, Result, ok, err, length, get_elem?, update, All, All-get, All-update,
  length-update, Option-cases,
}
use go_keylane.Errors.{Error, queue_full, invalid_lane_id}
use go_keylane.Job.{InternalJob}
use go_keylane.LaneQueue.{LaneQueue, push, stamp}
use go_keylane.LaneQueue.Contents.{contents, IsValid}
use go_keylane.LaneQueue.Refinement.{pushed, push_cases, pushed-IsValid, contents-pushed}
use go_keylane.LaneQueue.Draining.{stamp_newest_accepted-pushed}
use go_keylane.Shard.Defs.{Shard, stamped, enqueue_into_shard}

-- The queue with the job behind the others, stamped as the flags say.
abbrev pub arrived : InternalJob → ℕ → Bool → Bool → List InternalJob → List InternalJob
arrived job now accepted wait cs = cs ++ stamp now accepted wait job ∷ []

-- The shard after an accepted job: ready, and the job last in its lane.
pub record Accepts (s : Shard) (job : InternalJob) (now : ℕ) (accepted wait : Bool)
    (r : Shard × Result Error Bool) : Type 0 where
  pub became_ready : r.1 ≡ ok (not s.ready)
  pub is_ready : r.0.ready ≡ true
  pub stored :
      map contents r.0.lanes
      ≡ update (map contents s.lanes) job.lane_id (arrived job now accepted wait)
  pub valid : All IsValid r.0.lanes
  pub same_count : length r.0.lanes ≡ length s.lanes

abbrev pub Enqueues : Shard → InternalJob → ℕ → Bool → Bool → Shard × Result Error Bool → Type 0
Enqueues s job now accepted wait r =
    ((get_elem? s.lanes job.lane_id ≡ none) × (r ≡ (s, err invalid_lane_id)))
    ⊎ ((q : LaneQueue) × (get_elem? s.lanes job.lane_id ≡ some q)
        × (((q.size ≡ length q.items) × (r ≡ (s, err queue_full)))
            ⊎ ((q.size < length q.items) × Accepts s job now accepted wait r)))

stamped-pushed :
    (q : LaneQueue) (job : InternalJob) (now : ℕ) (accepted wait : Bool)
    → IsValid q
    → q.size < length q.items
    → stamped (pushed q job) now accepted wait ≡ pushed q (stamp now accepted wait job)
unfolding stamped
stamped-pushed q job now true wait v h = stamp_newest_accepted-pushed q job now true wait v h
stamped-pushed q job now false true v h = stamp_newest_accepted-pushed q job now false true v h
stamped-pushed q job now false false v h = refl

first_eq : (x q : LaneQueue) → some x ≡ some q → q ≡ x
first_eq x q e = cc

map-update_at :
    (qs : List LaneQueue) (i : ℕ) (q q' : LaneQueue) (f : List InternalJob → List InternalJob)
    → get_elem? qs i ≡ some q
    → contents q' ≡ f (contents q)
    → map contents (update qs i (λ _. q')) ≡ update (map contents qs) i f
map-update_at [] i q q' f g e = cc
map-update_at (x ∷ qs) zero q q' f g e =
    ap (λ cs. cs ∷ map contents qs) (e ∙ ap (λ y. f (contents y)) (first_eq x q g))
map-update_at (x ∷ qs) (suc i) q q' f g e = ap (◌∷◌ (contents x)) (map-update_at qs i q q' f g e)

module _ (s : Shard) (job : InternalJob) (now : ℕ) (accepted wait : Bool) {q : LaneQueue}
    (found : get_elem? s.lanes job.lane_id ≡ some q) where
  enqueue_full :
      push q job ≡ err queue_full → enqueue_into_shard s job now accepted wait ≡ (s, err queue_full)
  unfolding enqueue_into_shard
  enqueue_full e = rw (found, e, enqueue_into_shard)

  enqueue_accepted :
      (q' : LaneQueue)
      → push q job ≡ ok q'
      → enqueue_into_shard s job now accepted wait ≡ (
        record {
          ready = true;
          lanes = update s.lanes job.lane_id (λ _. stamped q' now accepted wait);
        },
        ok (not s.ready),
      )
  unfolding enqueue_into_shard
  enqueue_accepted q' e = rw (found, e, enqueue_into_shard)

  -- The stamped job joins its lane, and the shard is ready.
  enqueue_room :
      All IsValid s.lanes
      → q.size < length q.items
      → push q job ≡ ok (pushed q job)
      → Accepts s job now accepted wait (enqueue_into_shard s job now accepted wait)
  enqueue_room v room e =
      let w = All-get IsValid s.lanes job.lane_id v found in
      let new = pushed q (stamp now accepted wait job) in
      rw (enqueue_accepted (pushed q job) e, stamped-pushed q job now accepted wait w room)
        (record {
          became_ready = refl;
          is_ready = refl;
          stored =
              map-update_at s.lanes job.lane_id q new (arrived job now accepted wait) found
                (contents-pushed q (stamp now accepted wait job) w room);
          valid =
              All-update IsValid s.lanes job.lane_id (λ _. new) v
                (λ a _. pushed-IsValid q (stamp now accepted wait job) w room);
          same_count = length-update s.lanes job.lane_id (λ _. new);
        })

enqueue_invalid :
    (s : Shard) (job : InternalJob) (now : ℕ) (accepted wait : Bool)
    → get_elem? s.lanes job.lane_id ≡ none
    → enqueue_into_shard s job now accepted wait ≡ (s, err invalid_lane_id)
unfolding enqueue_into_shard
enqueue_invalid s job now accepted wait e = rw (e, enqueue_into_shard)

-- Every branch of enqueueIntoShard: an unknown lane and a full lane leave the shard as it was, under
-- their errors; any other lane gets the stamped job behind the jobs that it holds.
pub enqueue_into_shard-Enqueues :
    (s : Shard) (job : InternalJob) (now : ℕ) (accepted wait : Bool)
    → All IsValid s.lanes
    → Enqueues s job now accepted wait (enqueue_into_shard s job now accepted wait)
enqueue_into_shard-Enqueues s job now accepted wait v =
    elim (Option-cases (get_elem? s.lanes job.lane_id)) [
      | inl e ↦ inl (e, enqueue_invalid s job now accepted wait e)
      | inr (q, e) ↦ inr (
        q,
        e,
        elim (push_cases q job (All-get IsValid s.lanes job.lane_id v e)) [
          | inl (room, p) ↦ inr (room, enqueue_room s job now accepted wait e v room p)
          | inr (full, p) ↦ inl (full, enqueue_full s job now accepted wait e p)
        ],
      )
    ]
