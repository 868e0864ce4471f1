-- ===== src/Ledger/Reads.antt =====
-- Calls that only read: ledger.go's queries and what is composed of them, on a connection that no
-- transaction holds, whichever calls the database fails.
pub mod Queries
use go_pool.Base.{◌≡◌, refl, Bool, true, false, List, [], ◌∷◌, Option, none, some, if◌then◌else◌}
use go_pool.Ledger.Store.{Tables, Schema, Db, done, M, pure, exec, answer, then_do, ◌>>=◌}

-- A database that no transaction holds, and the failures to come.
abbrev pub ready : Schema → Tables → List Bool → Db
ready s t faults = record { schema = s; tables = t; faults = faults; taken = false }

-- The call returns with a value that satisfies the predicate, and changes nothing of the database.
pub record Reads {ℓ κ} {A : Type ℓ} (P : A → Type κ) (m : M A) : Type (ℓ ⊔ κ) where
  pub run :
      (s : Schema) (t : Tables) (faults : List Bool)
      → (a : A) × (left : List Bool) × (m (ready s t faults) ≡ (done a, ready s t left)) × P a

abbrev pub Any {ℓ} : {A : Type ℓ} → A → Type 0
Any _ = Unit {0}

-- A statement that leaves the tables.
abbrev pub IsRead : {A : Type 0} → Tables → Option (A × Tables) → Type 0
IsRead t none = Unit {0}
IsRead t (some (_, t')) = t' ≡ t

pub Reads-pure {ℓ κ} : {A : Type ℓ} (P : A → Type κ) (a : A) → P a → Reads P (pure a)
Reads-pure P a h = record { run = λ s t faults. (a, faults, refl, h) }

pub Reads->>= {ℓ κ μ ν} :
    {A : Type ℓ} {B : Type κ} {P : A → Type μ} {Q : B → Type ν} {m : M A} {k : A → M B}
    → Reads P m
    → ((a : A) → P a → Reads Q (k a))
    → Reads Q (m >>= k)
Reads->>= h g = record {
  run = λ s t faults.
      let (a, left, e, p) = h.run s t faults in
      let (b, left', e', q) = (g a p).run s t left in (b, left', rw e e', q);
}

pub IsRead-if :
    {A : Type 0} (t : Tables) (b : Bool) (a : A) → IsRead t (if b then some (a, t) else none)
IsRead-if t true a = refl
IsRead-if t false a = tt

answered :
    {A : Type 0} (s : Schema) (t : Tables) (faults : List Bool) (o : Option (A × Tables))
    → IsRead t o
    → (x : Option A) × (answer (ready s t faults) o ≡ (done x, ready s t faults))
answered s t faults none h = (none, refl)
answered s t faults (some (a, _)) h = (some a, rw h refl)

exec_reads :
    {A : Type 0} (f : Schema → Tables → Option (A × Tables))
    → ((s : Schema) (t : Tables) → IsRead t (f s t))
    → (s : Schema) (t : Tables) (faults : List Bool)
    → (x : Option A) × (left : List Bool) × (exec f (ready s t faults) ≡ (done x, ready s t left))
      × Any x
unfolding exec
exec_reads f h s t [] = let (x, e) = answered s t [] (f s t) (h s t) in (x, [], e, tt)
exec_reads f h s t (true ∷ faults) = (none, faults, refl, tt)
exec_reads f h s t (false ∷ faults) =
    let (x, e) = answered s t faults (f s t) (h s t) in (x, faults, e, tt)

pub Reads-exec :
    {A : Type 0} (f : Schema → Tables → Option (A × Tables))
    → ((s : Schema) (t : Tables) → IsRead t (f s t))
    → Reads Any (exec f)
Reads-exec f h = record { run = exec_reads f h }

-- For a call of which nothing but its return counts.
pub Reads-then {ℓ κ ν} :
    {A : Type ℓ} {B : Type κ} {Q : B → Type ν} {m : M A} {k : A → M B}
    → Reads Any m
    → ((a : A) → Reads Q (k a))
    → Reads Q (m >>= k)
Reads-then h g = Reads->>= h λ a _. g a
