-- ===== src/Plugin/External/Filled.antt =====
-- internal/plugin/tool.go: what a process gets, and what a prompt says.
use streamcore_server.Base.{
  Distinct, List, Map, Option, Option-cases, Text, [], ap, arith, false, inl, inr, insert, lookup,
  lookup-insert, none, refl, some, subst, sym, text_eq_iff, true, ℕ, ◌++◌, ◌==◌, ◌∙◌, ◌∷◌, ◌≡◌, ◌≢◌,
  ◌⊎◌,
}
use mathlib.Core.List.{append_assoc, append-nil}
use streamcore_server.Plugin.External.{
  Values, CaptureError, Captured, got, failed, is_word, merge, supply, capture_each, value_of, fill,
}

abbrev pub NoBrace : Text → Type 0
NoBrace [] = Unit
NoBrace (c ∷ s) = ((c == b'{') ≡ false) × NoBrace s

abbrev pub Words : Text → Type 0
Words [] = Unit
Words (c ∷ s) = (is_word c ≡ true) × Words s

module _ {V : Type 0} where
  -- The value of the second map's name, unless the first has one.
  abbrev pub over : Option V → Option V → Option V
  over none b = b
  over (some a) b = some a

  lookup-merge :
      (k : Text) (extra fields : Map V)
      → Distinct extra
      → lookup k (merge extra fields) ≡ over (lookup k extra) (lookup k fields)
  unfolding merge lookup
  lookup-merge k [] fields d = refl
  lookup-merge k ((i, v) ∷ extra) fields (a, d) = ground (
    arith,
    lookup-merge k extra (insert i v fields) d,
    lookup-insert i k v fields,
    text_eq_iff i k,
  )

  abbrev pub field_of : Text → Captured (Map V) → Option V
  field_of k (failed e) = none
  field_of k (got m) = lookup k m

  -- What the client's answer to a requirement has under a name.
  abbrev pub supplied : Values V → (Text → Option Text) → Text → Text → Option V
  supplied j supplies k r = field_of k (supply j r (supplies r))

  -- The last of the requirements that has the name, or what there was.
  abbrev pub latest : Values V → (Text → Option Text) → Text → List Text → Option V → Option V
  latest j supplies k [] v = v
  latest j supplies k (r ∷ rs) v = latest j supplies k rs (over (supplied j supplies k r) v)

  supply-Distinct :
      (j : Values V) (once : (s : Text) (m : Map V) → j.decode s ≡ some m → Distinct m) (r : Text)
      (o : Option Text) (m : Map V)
      → supply j r o ≡ got m
      → Distinct m
  unfolding supply
  supply-Distinct j once r none m e = absurd (ground arith)
  supply-Distinct j once r (some raw) m e = elim (Option-cases (j.decode raw)) [
    | inl n ↦ absurd (ground (arith, n))
    | inr (x, n) ↦ let q : x ≡ m = ground (arith, n) in subst Distinct q (once raw x n)
  ]

  Captured-cases :
      (c : Captured (Map V)) → ((e : CaptureError) × (c ≡ failed e)) ⊎ ((m : Map V) × (c ≡ got m))
  Captured-cases (failed e) = inl (e, refl)
  Captured-cases (got m) = inr (m, refl)

  -- If the requirements of a tool are met, each argument that its process gets is what the last requirement with a field of that
  -- name supplied, and where there is none, what the model gave. A decoded object names no key twice.
  pub capture_each_merges :
      (j : Values V) (supplies : Text → Option Text) (requires : List Text) (fields merged : Map V)
      → ((s : Text) (m : Map V) → j.decode s ≡ some m → Distinct m)
      → capture_each j supplies requires fields ≡ got merged
      → (k : Text) → lookup k merged ≡ latest j supplies k requires (lookup k fields)
  unfolding capture_each
  capture_each_merges j supplies [] fields merged once e k =
      let q : fields ≡ merged = ground arith in ap (lookup k) (sym q)
  capture_each_merges j supplies (r ∷ rs) fields merged once e k =
      elim (Captured-cases (supply j r (supplies r))) [
        | inl (x, n) ↦ absurd (ground (arith, n))
        | inr (extra, n) ↦
            let d = supply-Distinct j once r (supplies r) extra n in
            let e' : capture_each j supplies rs (merge extra fields) ≡ got merged =
              sym (rw (n, capture_each) refl) ∙ e in
            capture_each_merges j supplies rs (merge extra fields) merged once e' k
            ∙ ap (latest j supplies k rs) (
                lookup-merge k extra fields d
                ∙ ap (λ c. over (field_of k c) (lookup k fields)) (sym n))
      ]

  fill_plain :
      (j : Values V) (fields : Map V) (p s : Text)
      → NoBrace p
      → fill j fields none (p ++ s) ≡ p ++ fill j fields none s
  unfolding fill
  fill_plain j fields [] s n = refl
  fill_plain j fields (c ∷ p) s (n, ns) =
      rw n (ap (λ (x : Text). c ∷ x) (fill_plain j fields p s ns))

  word :
      (j : Values V) (fields : Map V) (w : Text) (c : ℕ) (s : Text)
      → is_word c ≡ true
      → fill j fields (some w) (c ∷ s) ≡ fill j fields (some (w ++ (c ∷ []))) s
  unfolding fill
  word j fields w c s n = rw (fill, n) refl

  close_brace :
      (j : Values V) (fields : Map V) (name s : Text)
      → name ≢ []
      → fill j fields (some name) (b'}' ∷ s) ≡ value_of j fields name ++ fill j fields none s
  unfolding fill
  close_brace j fields [] s n = absurd (n refl)
  close_brace j fields (c ∷ name) s n = refl

  fill_name :
      (j : Values V) (fields : Map V) (w name s : Text)
      → Words name
      → fill j fields (some w) (name ++ s) ≡ fill j fields (some (w ++ name)) s
  unfolding fill
  fill_name j fields w [] s n = rw (append-nil w) refl
  fill_name j fields w (c ∷ name) s (n, ns) =
      word j fields w c (name ++ s) n
      ∙ fill_name j fields (w ++ (c ∷ [])) name s ns
      ∙ ap (λ (x : Text). fill j fields (some x) s) (append_assoc w (c ∷ []) name)

  -- A prompt is its text up to its first brace; then, if a name in braces stands there, the value of the argument of that name, or nothing
  -- if there is none or it is null; and then the rest, filled in the same way.
  pub fill_fills :
      (j : Values V) (fields : Map V) (p name s : Text)
      → NoBrace p
      → Words name
      → name ≢ []
      → fill j fields none (p ++ (b'{' ∷ (name ++ (b'}' ∷ s))))
        ≡ p ++ (value_of j fields name ++ fill j fields none s)
  unfolding fill
  fill_fills j fields p name s n w ne =
      fill_plain j fields p (b'{' ∷ (name ++ (b'}' ∷ s))) n
      ∙ ap (λ (x : Text). p ++ x)
          (fill_name j fields [] name (b'}' ∷ s) w ∙ close_brace j fields name s ne)
