-- ===== src/Admission/Evaluate.antt =====
-- evaluateAdmission of internal/core/admission_policy.go, and what it admits.
use go_keylane.Base.{
  ℕ, ◌≡◌, refl, Bool, true, false, not, ◌&&◌, Option, none, some, get_elem?, leb, if◌then◌else◌,
}
use go_keylane.Base.Floats.{Float}
use go_keylane.Retry.Suppression.{LaneClass}
use go_keylane.Admission.Defs.{LaneAdmissionEntry, AdmissionPolicySnapshot}

pub data AdmissionReason : Type 0 where
  no_reason pressure_above_lane_threshold lane_queue_depth_exceeded : AdmissionReason

pub record AdmissionEvalResult {ℓ} (W : Type ℓ) : Type ℓ where
  pub admit : Bool
  pub reason : AdmissionReason
  pub class : LaneClass
  pub threshold : W
  pub max_depth : ℕ

module _ {ℓ} {W : Type ℓ} ⦃f : Float W⦄ where
  open f use {ratio, le}

  abbrev decision : LaneAdmissionEntry W → Bool → AdmissionReason → AdmissionEvalResult W
  decision e admit reason = record {
    admit = admit;
    reason = reason;
    class = e.class;
    threshold = e.reject_above_ratio;
    max_depth = e.max_queue_depth;
  }

  -- A lane's id is not negative here: it is a `uint16` in the source.
  unfoldable pub evaluate_admission : AdmissionPolicySnapshot W → ℕ → W → ℕ → AdmissionEvalResult W
  evaluate_admission snap lane pressure depth = elim (get_elem? snap.lanes lane) [
    | none ↦ record {
      admit = false;
      reason = pressure_above_lane_threshold;
      class = snap.default_entry.class;
      threshold = ratio 0 1;
      max_depth = 0;
    }
    | some e ↦
        if leb e.max_queue_depth depth
        then decision e false lane_queue_depth_exceeded
        else if le e.reject_above_ratio pressure
        then decision e false pressure_above_lane_threshold
        else decision e true no_reason
  ]

  -- The lane is there, below its depth, and the pressure is below its threshold.
  abbrev pub is_open : Option (LaneAdmissionEntry W) → W → ℕ → Bool
  is_open none pressure depth = false
  is_open (some e) pressure depth =
      not (leb e.max_queue_depth depth) && not (le e.reject_above_ratio pressure)

  admit_of :
      (d p : Bool) (x y z : AdmissionEvalResult W)
      → x.admit ≡ false
      → y.admit ≡ false
      → z.admit ≡ true
      → (if d then x else if p then y else z).admit ≡ not d && not p
  admit_of true p x y z hx hy hz = hx
  admit_of false true x y z hx hy hz = hy
  admit_of false false x y z hx hy hz = hz

  admitted :
      (snap : AdmissionPolicySnapshot W) (lane : ℕ) (pressure : W) (depth : ℕ)
      (o : Option (LaneAdmissionEntry W))
      → get_elem? snap.lanes lane ≡ o
      → (evaluate_admission snap lane pressure depth).admit ≡ is_open o pressure depth
  unfolding evaluate_admission
  admitted snap lane pressure depth none h = rw (evaluate_admission, h) refl
  admitted snap lane pressure depth (some e) h =
      rw (evaluate_admission, h)
        (admit_of (leb e.max_queue_depth depth) (le e.reject_above_ratio pressure)
          (decision e false lane_queue_depth_exceeded)
          (decision e false pressure_above_lane_threshold) (decision e true no_reason) refl refl
          refl)

  -- A request is admitted just where the snapshot has its lane, the lane is below its depth, and the
  -- pressure is below the lane's threshold.
  pub evaluate_admission-admit :
      (snap : AdmissionPolicySnapshot W) (lane : ℕ) (pressure : W) (depth : ℕ)
      → (evaluate_admission snap lane pressure depth).admit
        ≡ is_open (get_elem? snap.lanes lane) pressure depth
  evaluate_admission-admit snap lane pressure depth =
      admitted snap lane pressure depth (get_elem? snap.lanes lane) refl
