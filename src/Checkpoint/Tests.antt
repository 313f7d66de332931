-- ===== src/Checkpoint/Tests.antt =====
-- runtime-src/mamba_checkpoint_pool.py: two slots stored and loaded, the temporal state halved.
use sglang_flashnext_nvfp4kv.Prelude.{ℕ, ◌*◌, ◌/◌, refl, [], ◌∷◌, arith}
use sglang_flashnext_nvfp4kv.Checkpoint.State.{
  Active, conv_state, context, unsupported, store_from_active, load_to_active,
}
use sglang_flashnext_nvfp4kv.Checkpoint.Transfer.{Fits}
use sglang_flashnext_nvfp4kv.Checkpoint.Arrival.{Arrived, load-store}

abbrev active : Active ℕ ℕ
active = record {
  temporal = (11 ∷ 12 ∷ 13 ∷ []) ∷ [];
  conv = ((21 ∷ 22 ∷ 23 ∷ []) ∷ []) ∷ [];
  side = conv_state ((31 ∷ 32 ∷ 33 ∷ []) ∷ []) ∷ context (41 ∷ 42 ∷ 43 ∷ []) ∷ unsupported ∷ [];
}

abbrev empty_pool : Active ℕ ℕ
empty_pool = record {
  temporal = (0 ∷ 0 ∷ 0 ∷ []) ∷ [];
  conv = ((0 ∷ 0 ∷ 0 ∷ []) ∷ []) ∷ [];
  side = conv_state ((0 ∷ 0 ∷ 0 ∷ []) ∷ []) ∷ context (0 ∷ 0 ∷ 0 ∷ []) ∷ unsupported ∷ [];
}

pools-Fits : Fits (1 ∷ 2 ∷ []) (2 ∷ 1 ∷ []) active empty_pool
pools-Fits = record {
  temporal_fits = ((omega arith, (omega arith, tt)), (omega arith, (omega arith, tt)), tt);
  conv_fits = (((omega arith, (omega arith, tt)), (omega arith, (omega arith, tt)), tt), tt);
  side_fits = (
    ((omega arith, (omega arith, tt)), (omega arith, (omega arith, tt)), tt),
    (((omega arith, (omega arith, tt)), (omega arith, (omega arith, tt))), (tt, tt)),
  );
}

same_pool-Fits : Fits (1 ∷ 2 ∷ []) (0 ∷ 1 ∷ []) active active
same_pool-Fits = record {
  temporal_fits = ((omega arith, (omega arith, tt)), (omega arith, (omega arith, tt)), tt);
  conv_fits = (((omega arith, (omega arith, tt)), (omega arith, (omega arith, tt)), tt), tt);
  side_fits = (
    ((omega arith, (omega arith, tt)), (omega arith, (omega arith, tt)), tt),
    (((omega arith, (omega arith, tt)), (omega arith, (omega arith, tt))), (tt, tt)),
  );
}

load-store_example :
    Arrived
      (λ x. x / 2 * 2)
      (1 ∷ 2 ∷ [])
      (0 ∷ 1 ∷ [])
      active
      active
      (load_to_active
        (λ q. q * 2)
        (2 ∷ 1 ∷ [])
        (0 ∷ 1 ∷ [])
        (store_from_active (λ x. x / 2) (1 ∷ 2 ∷ []) (2 ∷ 1 ∷ []) active empty_pool)
        active)
load-store_example =
    load-store (λ x. x / 2) (λ q. q * 2) (1 ∷ 2 ∷ []) (2 ∷ 1 ∷ []) (0 ∷ 1 ∷ []) active empty_pool
      active refl (refl, (refl, tt)) (refl, (refl, tt)) pools-Fits same_pool-Fits
