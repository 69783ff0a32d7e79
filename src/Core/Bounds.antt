-- ===== src/Core/Bounds.antt =====
-- copc-core/src/bounds.rs: boxes in space, over the operations of `f64`.
use copc_rust.Prelude.{ℕ, ◌/◌, ◌%◌, Bool, ◌==◌, ◌&&◌, if◌then◌else◌}

-- The operations of `f64` that the code uses: nothing is assumed of their results.
pub record Floats (F : Type 0) : Type 0 where
  pub plus : F → F → F
  pub minus : F → F → F
  pub times : F → F → F
  pub half : F
  pub at_least : F → F → Bool

pub record Bounds (F : Type 0) : Type 0 where
  pub min : F × F × F
  pub max : F × F × F

-- `Bounds::point`
abbrev pub point_bounds : {F : Type 0} → F → F → F → Bounds F
point_bounds x y z = record { min = (x, y, z); max = (x, y, z) }

module _ {F : Type 0} ⦃f : Floats F⦄ where
  -- `Bounds::cube`
  abbrev pub cube : F × F × F → F → Bounds F
  cube c halfsize = record {
    min = (f.minus c.0 halfsize, f.minus c.1 halfsize, f.minus c.2 halfsize);
    max = (f.plus c.0 halfsize, f.plus c.1 halfsize, f.plus c.2 halfsize);
  }

  abbrev pub middle : F → F → F
  middle a b = f.plus (f.times a f.half) (f.times b f.half)

  abbrev pub center : Bounds F → F × F × F
  center b = (middle b.min.0 b.max.0, middle b.min.1 b.max.1, middle b.min.2 b.max.2)

  -- The half of an axis, by the bit `k` of the octant.
  abbrev pub half_of : ℕ → F → F → F → F × F
  half_of bit low mid high = if bit == 0 then (low, mid) else (mid, high)

  -- `Bounds::octant`
  abbrev pub octant : Bounds F → ℕ → Bounds F
  octant b o =
      let c = center b in
      let x = half_of (o / 1 % 2) b.min.0 c.0 b.max.0 in
      let y = half_of (o / 2 % 2) b.min.1 c.1 b.max.1 in
      let z = half_of (o / 4 % 2) b.min.2 c.2 b.max.2 in
      record { min = (x.0, y.0, z.0); max = (x.1, y.1, z.1) }

  abbrev pub intersects : Bounds F → Bounds F → Bool
  intersects a b =
      f.at_least a.max.0 b.min.0
      && f.at_least b.max.0 a.min.0
      && f.at_least a.max.1 b.min.1
      && f.at_least b.max.1 a.min.1
      && f.at_least a.max.2 b.min.2
      && f.at_least b.max.2 a.min.2

  abbrev pub contains_xyz : Bounds F → F → F → F → Bool
  contains_xyz b x y z =
      f.at_least x b.min.0
      && f.at_least b.max.0 x
      && f.at_least y b.min.1
      && f.at_least b.max.1 y
      && f.at_least z b.min.2
      && f.at_least b.max.2 z
