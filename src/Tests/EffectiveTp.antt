-- ===== src/Tests/EffectiveTp.antt =====
-- Tests of `effective_tp`.
use mtsc.Common.{◌≤◌, ◌≡◌, ◌<◌, ◌%◌, refl, ok, false}
use mtsc.EffectiveTp.{shared_heads, effective_tp-divides, effective_tp}

two_ranks : effective_tp 8 2 false ≡ ok 2
unfolding effective_tp
two_ranks = refl

effective_tp-divides_example :
    (0 < 2) × (2 ≤ 8) × (2 ≤ shared_heads 2 false) × (8 % 2 ≡ 0) × (shared_heads 2 false % 2 ≡ 0)
effective_tp-divides_example = effective_tp-divides 8 2 false 2 two_ranks
