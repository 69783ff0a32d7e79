-- ===== src/Core/Info/Valid.antt =====
-- copc-core/src/info.rs: `CopcInfo::validate`, which infos it accepts.
use copc_rust.Prelude.{
  ℕ, ◌+◌, ◌-◌, ◌*◌, ◌%◌, ◌^◌, ◌<◌, ◌≤◌, ◌≡◌, ◌==◌, ◌↔◌, refl, arith, not, ◌||◌, ltb, false, ok,
  reject_if, reject_if-ok, invalid_data, >>=-eq-ok, if◌then◌else◌,
}
use copc_rust.Prelude.Bytes.{IsU64}
use copc_rust.Core.Info.{CopcInfo, validate, is_finite, at_most_zero, above}

-- Without the sign, the bits are below those of the infinity.
abbrev pub IsFinite : ℕ → Type 0
IsFinite bits = bits % 2 ^ 63 < 2047 * 2 ^ 52

abbrev pub IsPositive : ℕ → Type 0
IsPositive bits = (0 < bits) × (bits < 2 ^ 63)

-- The place of a finite value in the order of the floats; both zeros are at 2 ^ 63.
abbrev pub rank : ℕ → ℕ
rank bits = if ltb bits (2 ^ 63) then 2 ^ 63 + bits else 2 ^ 64 - bits

-- A cube of a finite center and a positive size, a positive spacing, a root page of one entry or more,
-- all whole, that is not at the start of the file, and two finite times in their order.
pub record IsInfo (info : CopcInfo) : Type 0 where
  pub center : IsFinite info.center.0 × IsFinite info.center.1 × IsFinite info.center.2
  pub halfsize : IsFinite info.halfsize × IsPositive info.halfsize
  pub spacing : IsFinite info.spacing × IsPositive info.spacing
  pub page_offset : 0 < info.root_hier_offset
  pub page_size : (32 ≤ info.root_hier_size) × (info.root_hier_size % 32 ≡ 0)
  pub times : IsFinite info.gpstime_min × IsFinite info.gpstime_max
  pub in_order : rank info.gpstime_min ≤ rank info.gpstime_max

IsFinite-iff : (a : ℕ) → (not (is_finite a) ≡ false) ↔ IsFinite a
IsFinite-iff a = (λ h. ground arith, λ h. ground arith)

IsPositive-iff :
    (a : ℕ) → ((not (is_finite a) || at_most_zero a) ≡ false) ↔ (IsFinite a × IsPositive a)
IsPositive-iff a = (λ h. ground arith, λ h. ground arith)

both_finite :
    (a b : ℕ) → ((not (is_finite a) || not (is_finite b)) ≡ false) ↔ (IsFinite a × IsFinite b)
both_finite a b = (λ h. ground arith, λ h. ground arith)

in_order_iff : (a b : ℕ) → IsU64 a → IsU64 b → (above a b ≡ false) ↔ (rank a ≤ rank b)
in_order_iff a b h k = (λ t. ground arith, λ t. ground arith)

nonzero_iff : (a : ℕ) → ((a == 0) ≡ false) ↔ (0 < a)
nonzero_iff a = (λ h. ground arith, λ h. ground arith)

whole_iff : (a : ℕ) → (not (a % 32 == 0) ≡ false) ↔ (a % 32 ≡ 0)
whole_iff a = (λ h. ground arith, λ h. ground arith)

pub validate-IsInfo :
    (info : CopcInfo)
    → IsU64 info.gpstime_min
    → IsU64 info.gpstime_max
    → validate info ≡ ok tt
    → IsInfo info
unfolding validate
validate-IsInfo info u v h =
    let (_, x, h1) = >>=-eq-ok (reject_if (not (is_finite info.center.0)) invalid_data) _ h in
    let (_, y, h2) = >>=-eq-ok (reject_if (not (is_finite info.center.1)) invalid_data) _ h1 in
    let (_, z, h3) = >>=-eq-ok (reject_if (not (is_finite info.center.2)) invalid_data) _ h2 in
    let (_, side, h4) =
      >>=-eq-ok
        (reject_if (not (is_finite info.halfsize) || at_most_zero info.halfsize) invalid_data) _
        h3 in
    let (_, gap, h5) =
      >>=-eq-ok (reject_if (not (is_finite info.spacing) || at_most_zero info.spacing) invalid_data)
        _ h4 in
    let (_, offset, h6) = >>=-eq-ok (reject_if (info.root_hier_offset == 0) invalid_data) _ h5 in
    let (_, size, h7) = >>=-eq-ok (reject_if (info.root_hier_size == 0) invalid_data) _ h6 in
    let (_, whole, h8) =
      >>=-eq-ok (reject_if (not (info.root_hier_size % 32 == 0)) invalid_data) _ h7 in
    let (_, both, ordered) =
      >>=-eq-ok
        (reject_if (not (is_finite info.gpstime_min) || not (is_finite info.gpstime_max))
          invalid_data)
        _ h8 in
    let some_size = (nonzero_iff info.root_hier_size).0 (reject_if-ok _ _ size) in
    let whole_size = (whole_iff info.root_hier_size).0 (reject_if-ok _ _ whole) in
    record {
      center = (
        (IsFinite-iff info.center.0).0 (reject_if-ok _ _ x),
        (IsFinite-iff info.center.1).0 (reject_if-ok _ _ y),
        (IsFinite-iff info.center.2).0 (reject_if-ok _ _ z),
      );
      halfsize = (IsPositive-iff info.halfsize).0 (reject_if-ok _ _ side);
      spacing = (IsPositive-iff info.spacing).0 (reject_if-ok _ _ gap);
      page_offset = (nonzero_iff info.root_hier_offset).0 (reject_if-ok _ _ offset);
      page_size = (omega arith, whole_size);
      times = (both_finite info.gpstime_min info.gpstime_max).0 (reject_if-ok _ _ both);
      in_order =
          (in_order_iff info.gpstime_min info.gpstime_max u v).0
            (reject_if-ok (above info.gpstime_min info.gpstime_max) invalid_data ordered);
    }

pub IsInfo-validate :
    (info : CopcInfo)
    → IsU64 info.gpstime_min
    → IsU64 info.gpstime_max
    → IsInfo info
    → validate info ≡ ok tt
unfolding validate
IsInfo-validate info u v i =
    let some_size : 0 < info.root_hier_size = omega (arith, i.page_size.0) in
    rw
      (
        (IsFinite-iff info.center.0).1 i.center.0,
        (IsFinite-iff info.center.1).1 i.center.1,
        (IsFinite-iff info.center.2).1 i.center.2,
        (IsPositive-iff info.halfsize).1 i.halfsize,
        (IsPositive-iff info.spacing).1 i.spacing,
        (nonzero_iff info.root_hier_offset).1 i.page_offset,
        (nonzero_iff info.root_hier_size).1 some_size,
        (whole_iff info.root_hier_size).1 i.page_size.1,
        (both_finite info.gpstime_min info.gpstime_max).1 i.times,
        (in_order_iff info.gpstime_min info.gpstime_max u v).1 i.in_order,
      )
      refl
