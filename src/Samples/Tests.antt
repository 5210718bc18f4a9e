-- ===== src/Samples/Tests.antt =====
-- crates/aep-core/examples/emit_aep_samples.rs: runs with a concrete instance of the crates.
use wasmagent_proxy.Base.{◌≡◌, refl, ok, text_eq, min_by_key}
use wasmagent_proxy.Json.Toy.Parser.{parsing}
use wasmagent_proxy.Evidence.{AepRecord}
use wasmagent_proxy.Dsse.Sign.{sign_record_dsse, grade_rank, check_floor, check_grading}
use wasmagent_proxy.Samples.{annotated_record, signed_record, sample_key}

-- The signed sample is signed.
sample_signed : (r : AepRecord) × (signed_record parsing sample_key ≡ ok r)
unfolding signed_record sign_record_dsse check_grading
sample_signed = (_, refl)

-- The annotated sample is graded as signing wants it.
annotated_graded :
    check_grading annotated_record.run_attribution_backing_floor
      annotated_record.run_attribution_backing_observed
    ≡ ok tt
unfolding check_grading check_floor grade_rank text_eq min_by_key
annotated_graded = refl
