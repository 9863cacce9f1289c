-- ===== src/ObjectPool/Shared.antt =====
-- `RefCountedPooledObject` and `PooledSharedPtr` of Memory/SegmentedObjectPool.hpp: handles to
-- objects of a pool, and the counts that the objects keep of them.
pub mod Counts
use bhcpp_hptool_kit.Base.{
  ℕ, ◌+◌, ◌-◌, ◌%◌, ◌^◌, Bool, true, false, ◌&&◌, Option, none, some, if◌then◌else◌, ◌==◌,
}
use bhcpp_hptool_kit.ObjectPool.{Ptr, Pool, Config, allocate, deallocate}

abbrev pub same_ptr : Ptr → Ptr → Bool
same_ptr p q = (p.0 == q.0) && (p.1 == q.1)

abbrev pub set_at {ℓ} : {A : Type ℓ} → (Ptr → A) → Ptr → A → Ptr → A
set_at f p a q = if same_ptr p q then a else f q

-- The pool, and the fields `ref_count_` and `recycled_` of its objects.
pub record Objects : Type 0 where
  pub pool : Pool
  pub ref_count : Ptr → ℕ
  pub recycled : Ptr → Bool

-- `ref_count_.fetch_add(1u)`
unfoldable pub add_ref : Objects → Ptr → Objects
add_ref o p = record o { ref_count = set_at o.ref_count p ((o.ref_count p + 1) % 2 ^ 32) }

-- `ref_count_.fetch_sub(1u)`, and the return of the object at the last handle
unfoldable pub release_ref : Objects → Ptr → Objects
release_ref o p =
    let less = record o {
      ref_count = set_at o.ref_count p ((o.ref_count p + 2 ^ 32 - 1) % 2 ^ 32);
    } in
    if o.ref_count p == 1
    then record less { recycled = set_at o.recycled p true; pool = deallocate o.pool p }
    else less

-- `make_shared`: `allocate` marks the object in use, and its count starts at 1.
unfoldable pub make_shared : (ℕ → ℕ) → Config → Objects → Ptr × Objects
make_shared grow config o =
    let (p, pool) = allocate grow config o.pool in
    (
      p,
      record {
        pool = pool;
        ref_count = set_at o.ref_count p 1;
        recycled = set_at o.recycled p false;
      },
    )

-- the copy constructor of a handle, and `shared_from_this`
unfoldable pub add_ref_if_needed : Objects → Option Ptr → Objects
add_ref_if_needed o none = o
add_ref_if_needed o (some p) = add_ref o p

-- the destructor of a handle, and `reset()`
unfoldable pub release_ref_if_needed : Objects → Option Ptr → Objects
release_ref_if_needed o none = o
release_ref_if_needed o (some p) = release_ref o p

-- `operator=` from another handle: a copy is made, swapped in, and the old handle is destroyed.
unfoldable pub assign_copy : Objects → Option Ptr → Option Ptr → Option Ptr × Objects
assign_copy o target source = (source, release_ref_if_needed (add_ref_if_needed o source) target)

-- `operator=` from a handle that is moved: the results are both handles after it.
unfoldable pub assign_move : Objects → Option Ptr → Option Ptr → (Option Ptr × Option Ptr) × Objects
assign_move o target source = ((source, none), release_ref_if_needed o target)

unfoldable pub use_count : Objects → Option Ptr → ℕ
use_count o none = 0
use_count o (some p) = o.ref_count p
