-- ===== src/Io/Setup/Held.antt =====
-- What the process holds of the operating system.
use storage_engine.Base.{
  ℕ, ◌+◌, Bool, false, ◌&&◌, ◌==◌, Option, none, some, List, [], ◌∷◌, if◌then◌else◌,
}

pub data Resource : Type 0 where
  descriptor : ℕ → Resource
  mapping : (address size : ℕ) → Resource

-- `faults` counts the releases of what is not held.
pub record Os : Type 0 where
  pub held : List Resource
  pub faults : ℕ

abbrev pub same : Resource → Resource → Bool
same (descriptor fd) (descriptor other) = fd == other
same (mapping p n) (mapping q m) = (p == q) && (n == m)
same (descriptor fd) (mapping q m) = false
same (mapping p n) (descriptor other) = false

abbrev pub kept : Resource → Option (List Resource) → Option (List Resource)
kept r none = none
kept r (some rs) = some (r ∷ rs)

unfoldable pub without : Resource → List Resource → Option (List Resource)
without r [] = none
without r (x ∷ xs) = if same r x then some xs else kept x (without r xs)

abbrev pub released : Os → Option (List Resource) → Os
released os none = record os { faults = os.faults + 1 }
released os (some held) = record os { held = held }

abbrev pub hold : Resource → Os → Os
hold r os = record os { held = r ∷ os.held }

abbrev pub release : Resource → Os → Os
release r os = released os (without r os.held)
