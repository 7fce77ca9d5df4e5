-- ===== src/Structs/Order.antt =====
-- The order of wallets, keys and seeds (macro `ord_by_date_id` of src/structs/utils.rs).
use emerald_rs.Prelude.{◌≡◌, ◌↔◌, arith, Ordering}
use emerald_rs.Structs.{Uuid, Instant, cmp_by_date_id}

-- What `cmp` puts before is before: the order is transitive.
pub cmp_by_date_id_trans :
    (a b c : Uuid × Instant)
    → cmp_by_date_id a b ≡ Ordering.lt
    → cmp_by_date_id b c ≡ Ordering.lt
    → cmp_by_date_id a c ≡ Ordering.lt
unfolding cmp_by_date_id
cmp_by_date_id_trans (i, s) (j, t) (k, u) p q = ground arith

swap :
    (a b : Uuid × Instant) → (cmp_by_date_id a b ≡ Ordering.lt) ↔ (cmp_by_date_id b a ≡ Ordering.gt)
unfolding cmp_by_date_id
swap (i, s) (j, t) = (λ h. ground arith, λ h. ground arith)

same :
    (i j : Uuid) (s t : Instant)
    → (cmp_by_date_id (i, s) (j, t) ≡ Ordering.eq) ↔ ((i ≡ j) × (s ≡ t))
unfolding cmp_by_date_id
same i j s t = (λ h. (ground arith, ground arith), λ h. ground arith)

-- `cmp` turns around when its arguments are swapped, and only equal pairs compare as equal.
pub cmp_by_date_id_total :
    (a b : Uuid × Instant)
    → ((cmp_by_date_id a b ≡ Ordering.lt) ↔ (cmp_by_date_id b a ≡ Ordering.gt))
      × ((cmp_by_date_id a b ≡ Ordering.eq) ↔ ((a.0 ≡ b.0) × (a.1 ≡ b.1)))
cmp_by_date_id_total (i, s) (j, t) = (swap (i, s) (j, t), same i j s t)
