-- ===== src/Failure/Tests.antt =====
-- A full queue that a stage reports.
use go_keylane.Base.{[], ◌∷◌, refl}
use go_keylane.Failure.Defs.{is_nil, Sentinel, ErrorValue, sentinel}
use go_keylane.Failure.Classify.{classify_default}
use go_keylane.Failure.Wrapping.{text, stage, wrap, SameVerdict, classify_default-wrap}

abbrev full : ErrorValue
full = sentinel Sentinel.queue_full

classify_default-wrap_example :
    SameVerdict (classify_default (wrap (stage "load" ∷ text ∷ []) full)) (classify_default full)
unfolding is_nil
classify_default-wrap_example = classify_default-wrap (stage "load" ∷ text ∷ []) full refl
