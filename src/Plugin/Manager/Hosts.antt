-- ===== src/Plugin/Manager/Hosts.antt =====
-- internal/plugin/manager.go: the list of processes that the manager keeps.
use streamcore_server.Base.{
  Bool, List, Text, [], arith, false, ltb, not, refl, suc, true, ℕ, ◌&&◌, ◌++◌, ◌==◌, ◌||◌, ◌∷◌,
  ◌≡◌,
}
use streamcore_server.Plugin.Manager.{Host}

abbrev pub has_host : ℕ → List Host → Bool
has_host h [] = false
has_host h (x ∷ xs) = x.id == h || has_host h xs

abbrev pub all_below : ℕ → List Host → Bool
all_below n [] = true
all_below n (x ∷ xs) = ltb x.id n && all_below n xs

abbrev pub ids_differ : List Host → Bool
ids_differ [] = true
ids_differ (x ∷ xs) = not (has_host x.id xs) && ids_differ xs

pub has_host-append :
    (h : ℕ) (x : Host) (hosts : List Host)
    → has_host h (hosts ++ (x ∷ [])) ≡ (has_host h hosts || (x.id == h))
has_host-append h x [] = ground arith
has_host-append h x (y ∷ hosts) = ground (arith, has_host-append h x hosts)

pub all_below-suc :
    (n : ℕ) (hosts : List Host) → all_below n hosts ≡ true → all_below (suc n) hosts ≡ true
all_below-suc n [] a = refl
all_below-suc n (x ∷ xs) a = ground (arith, all_below-suc n xs)

pub all_below-append :
    (n : ℕ) (name : Text) (hosts : List Host)
    → all_below n hosts ≡ true
    → all_below (suc n) (hosts ++ (record { id = n; name = name } ∷ [])) ≡ true
all_below-append n name [] a = ground arith
all_below-append n name (x ∷ xs) a = ground (arith, all_below-append n name xs)

pub ids_differ-append :
    (n : ℕ) (name : Text) (hosts : List Host)
    → all_below n hosts ≡ true
    → ids_differ hosts ≡ true
    → ids_differ (hosts ++ (record { id = n; name = name } ∷ [])) ≡ true
ids_differ-append n name [] a d = refl
ids_differ-append n name (x ∷ xs) a d =
    ground
      (arith, ids_differ-append n name xs, has_host-append x.id (record { id = n; name = name }) xs)

-- The hosts of the first list are in the second.
abbrev pub AllIn : List Host → List Host → Type 0
AllIn [] hosts = Unit
AllIn (x ∷ xs) hosts = (has_host x.id hosts ≡ true) × AllIn xs hosts

AllIn-more : (y : Host) (xs hosts : List Host) → AllIn xs hosts → AllIn xs (y ∷ hosts)
AllIn-more y [] hosts a = tt
AllIn-more y (x ∷ xs) hosts (b, a) = (ground arith, AllIn-more y xs hosts a)

pub AllIn-self : (hosts : List Host) → AllIn hosts hosts
AllIn-self [] = tt
AllIn-self (x ∷ xs) = (ground arith, AllIn-more x xs xs (AllIn-self xs))
