-- ===== src/ResultSet/Keys.antt =====
-- The keys of filters (nexus/result.py): `"__" in key`, `key.split("__")` and `"__".join(parts)`.
use Prim.Native.Char.{Char, code}
use event_pipeline.Prelude.{
  ◌≡◌, refl, sym, ap, subst, ◌∙◌, Bool, true, false, ◌&&◌, List, [], ◌∷◌, nat_beq, inl, inr,
  Bool-cases, arith,
}
use Prim.Native.String.{String}

abbrev pub is_underscore : Char → Bool
is_underscore c = nat_beq (code c) b'_'

-- A character before the first part; there always is one.
abbrev pub push : Char → List String → List String
push c [] = String.◌∷◌ c String.[] ∷ []
push c (p ∷ ps) = String.◌∷◌ c p ∷ ps

-- key.split("__")
unfoldable pub split : String → List String
split String.[] = String.[] ∷ []
split (String.◌∷◌ c String.[]) = String.◌∷◌ c String.[] ∷ []
split (String.◌∷◌ c (String.◌∷◌ d s)) = elim (is_underscore c && is_underscore d) [
  | true ↦ String.[] ∷ split s
  | false ↦ push c (split (String.◌∷◌ d s))
]

-- "__" in key
unfoldable pub has_separator : String → Bool
has_separator String.[] = false
has_separator (String.◌∷◌ c String.[]) = false
has_separator (String.◌∷◌ c (String.◌∷◌ d s)) = elim (is_underscore c && is_underscore d) [
  | true ↦ true
  | false ↦ has_separator (String.◌∷◌ d s)
]

abbrev pub followed : String → String → String
followed String.[] rest = String.◌∷◌ "_" (String.◌∷◌ "_" rest)
followed (String.◌∷◌ c p) rest = String.◌∷◌ c (followed p rest)

-- "__".join(parts)
unfoldable pub join : List String → String
join [] = String.[]
join (p ∷ []) = p
join (p ∷ q ∷ ps) = followed p (join (q ∷ ps))

-- parts[:-1] and parts[-1]
abbrev pub all_but_last : List String → List String
all_but_last [] = []
all_but_last (p ∷ []) = []
all_but_last (p ∷ q ∷ ps) = p ∷ all_but_last (q ∷ ps)

abbrev pub last : List String → String
last [] = String.[]
last (p ∷ []) = p
last (p ∷ q ∷ ps) = last (q ∷ ps)

split_test : split "user__profile___name__in" ≡ "user" ∷ "profile" ∷ "_name" ∷ "in" ∷ []
unfolding split
split_test = refl

split-ne : (s : String) → (p : String) × (ps : List String) × (split s ≡ p ∷ ps)
unfolding split
split-ne String.[] = (String.[], [], refl)
split-ne (String.◌∷◌ c String.[]) = (String.◌∷◌ c String.[], [], refl)
split-ne (String.◌∷◌ c (String.◌∷◌ d s)) =
    let (p, ps, e) = split-ne (String.◌∷◌ d s) in
    elim (Bool-cases (is_underscore c && is_underscore d)) [
      | inl both ↦ (String.[], split s, rw (both, split) refl)
      | inr other ↦ (String.◌∷◌ c p, ps, rw (other, split) (rw e refl))
    ]

-- Two underscores at the head give an empty part, any other head goes into the first part.
split-separator :
    (c d : Char) (s : String)
    → (is_underscore c && is_underscore d) ≡ true
    → split (String.◌∷◌ c (String.◌∷◌ d s)) ≡ String.[] ∷ split s
unfolding split
split-separator c d s both = rw (both, split) refl

split-push :
    (c d : Char) (s : String)
    → (is_underscore c && is_underscore d) ≡ false
    → split (String.◌∷◌ c (String.◌∷◌ d s)) ≡ push c (split (String.◌∷◌ d s))
unfolding split
split-push c d s other = rw (other, split) refl

-- Whether the character and the head of the text are a separator.
abbrev joins : Char → String → Bool
joins c String.[] = false
joins c (String.◌∷◌ e s) = is_underscore c && is_underscore e

abbrev begins : String → Bool
begins String.[] = false
begins (String.◌∷◌ e s) = is_underscore e

joins-begins : (c : Char) (s : String) → joins c s ≡ (is_underscore c && begins s)
joins-begins c String.[] = ground arith
joins-begins c (String.◌∷◌ e s) = refl

split-joins :
    (c : Char) (s : String) → joins c s ≡ false → split (String.◌∷◌ c s) ≡ push c (split s)
unfolding split
split-joins c String.[] other = refl
split-joins c (String.◌∷◌ e s) other = split-push c e s other

join-push :
    (c : Char) (p : String) (ps : List String)
    → join (String.◌∷◌ c p ∷ ps) ≡ String.◌∷◌ c (join (p ∷ ps))
unfolding join
join-push c p [] = refl
join-push c p (q ∷ ps) = refl

true_left : (a b : Bool) → (a && b) ≡ true → a ≡ true
true_left true b e = refl
true_left false b e = cc

begins-split :
    (d : Char) (s p q : String) (ps : List String)
    → split (String.◌∷◌ d s) ≡ p ∷ q ∷ ps
    → begins (join (p ∷ all_but_last (q ∷ ps))) ≡ true
    → is_underscore d ≡ true
unfolding split
begins-split d String.[] p q ps e h = cc
begins-split d (String.◌∷◌ d' s) p q ps e h =
    elim (Bool-cases (is_underscore d && is_underscore d')) [
      | inl both ↦ true_left (is_underscore d) (is_underscore d') both
      | inr other ↦
          let (p', ps', parts) = split-ne (String.◌∷◌ d' s) in
          let first : String.◌∷◌ d p' ∷ ps' ≡ p ∷ q ∷ ps =
            ap (push d) (sym parts) ∙ sym (split-push d d' s other) ∙ e in
          let same : p ≡ String.◌∷◌ d p' = cc first in
          (ap begins (sym (join-push d p' (all_but_last (q ∷ ps)))))
          ∙ subst (λ t. begins (join (t ∷ all_but_last (q ∷ ps))) ≡ true) same h
    ]

after_separator :
    (q : String) (ps : List String)
    → ((r : String) (rs : List String)
        → ps ≡ r ∷ rs
        → split (join (all_but_last (q ∷ r ∷ rs))) ≡ all_but_last (q ∷ r ∷ rs))
    → split (join (String.[] ∷ all_but_last (q ∷ ps))) ≡ String.[] ∷ all_but_last (q ∷ ps)
unfolding split join
after_separator q [] ih = refl
after_separator q (r ∷ rs) ih = ap (λ (ts : List String). String.[] ∷ ts) (ih r rs refl)

after_push :
    (c d : Char) (s p q : String) (ps : List String)
    → (is_underscore c && is_underscore d) ≡ false
    → split (String.◌∷◌ d s) ≡ p ∷ q ∷ ps
    → split (join (p ∷ all_but_last (q ∷ ps))) ≡ p ∷ all_but_last (q ∷ ps)
    → split (join (String.◌∷◌ c p ∷ all_but_last (q ∷ ps))) ≡ String.◌∷◌ c p ∷ all_but_last (q ∷ ps)
after_push c d s p q ps other parts ih =
    let rest : String = join (p ∷ all_but_last (q ∷ ps)) in
    ap split (join-push c p (all_but_last (q ∷ ps)))
    ∙ split-joins c rest (ground (arith, joins-begins c rest, begins-split d s p q ps parts))
    ∙ ap (push c) ih

-- The parts of a key but the last, joined, are split into the same parts.
pub split-join :
    (s p q : String) (ps : List String)
    → split s ≡ p ∷ q ∷ ps
    → split (join (all_but_last (p ∷ q ∷ ps))) ≡ all_but_last (p ∷ q ∷ ps)
unfolding split join
split-join String.[] p q ps e = cc
split-join (String.◌∷◌ c String.[]) p q ps e = cc
split-join (String.◌∷◌ c (String.◌∷◌ d s)) p q ps e =
    elim (Bool-cases (is_underscore c && is_underscore d)) [
      | inl both ↦
          let parts : String.[] ∷ split s ≡ p ∷ q ∷ ps = sym (split-separator c d s both) ∙ e in
          let first : String.[] ≡ p = cc parts in
          subst (λ t. split (join (t ∷ all_but_last (q ∷ ps))) ≡ t ∷ all_but_last (q ∷ ps)) first
            (after_separator q ps (λ r rs more. split-join s q r rs (cc (parts, more))))
      | inr other ↦
          let (p', ps', parts) = split-ne (String.◌∷◌ d s) in
          let all : String.◌∷◌ c p' ∷ ps' ≡ p ∷ q ∷ ps =
            ap (push c) (sym parts) ∙ sym (split-push c d s other) ∙ e in
          let first : String.◌∷◌ c p' ≡ p = cc all in
          let parts' : split (String.◌∷◌ d s) ≡ p' ∷ q ∷ ps = cc (parts, all) in
          subst (λ t. split (join (t ∷ all_but_last (q ∷ ps))) ≡ t ∷ all_but_last (q ∷ ps)) first
            (after_push c d s p' q ps other parts' (split-join (String.◌∷◌ d s) p' q ps parts'))
    ]

has_separator-split :
    (s : String)
    → has_separator s ≡ true
    → (p : String) × (q : String) × (ps : List String) × (split s ≡ p ∷ q ∷ ps)
unfolding has_separator
has_separator-split String.[] h = cc
has_separator-split (String.◌∷◌ c String.[]) h = cc
has_separator-split (String.◌∷◌ c (String.◌∷◌ d s)) h =
    elim (Bool-cases (is_underscore c && is_underscore d)) [
      | inl both ↦
          let (q, ps, e) = split-ne s in
          (String.[], q, ps, split-separator c d s both ∙ ap (λ ts. String.[] ∷ ts) e)
      | inr other ↦
          let (p, q, ps, e) =
            has_separator-split (String.◌∷◌ d s) (rw (other, has_separator) at h) in
          (String.◌∷◌ c p, q, ps, split-push c d s other ∙ ap (push c) e)
    ]

-- A key with a separator: its parts but the last are those of the path that they are joined to.
pub split_path :
    (s : String)
    → has_separator s ≡ true
    → split (join (all_but_last (split s))) ≡ all_but_last (split s)
split_path s h = let (p, q, ps, e) = has_separator-split s h in rw e (split-join s p q ps e)
