-- ===== src/Text/Laws.antt =====
-- Laws of the string functions: prefixes, cuts, splits and joins.
use event_pool.Prelude.{
  ℕ, zero, suc, ◌-◌, ◌≡◌, refl, sym, ap, inl, inr, [], ◌∷◌, ◌++◌, true, false, Option, none, some,
  text_eq_iff, length, take, drop, take-append-drop, arith, All, Bool-cases, Option-cases,
}
use event_pool.Text.{
  Text, has_prefix, trim_prefix, has_suffix, trim_suffix, contains, cut, index, split_loop, split,
  join, remove_spaces,
}

pub has_prefix-append : (p s : Text) → has_prefix (p ++ s) p ≡ true
unfolding has_prefix
has_prefix-append [] s = refl
has_prefix-append (x ∷ p) s = ground (arith, has_prefix-append p s)

pub has_prefix-drop : (s p : Text) → has_prefix s p ≡ true → s ≡ p ++ drop (length p) s
unfolding has_prefix
has_prefix-drop s [] h = refl
has_prefix-drop [] (y ∷ p) h = cc
has_prefix-drop (x ∷ s) (y ∷ p) h = ground (arith, has_prefix-drop s p)

pub has_prefix-grow : (s t p : Text) → has_prefix s p ≡ true → has_prefix (s ++ t) p ≡ true
unfolding has_prefix
has_prefix-grow s t [] h = refl
has_prefix-grow [] t (y ∷ p) h = cc
has_prefix-grow (x ∷ s) t (y ∷ p) h = ground (arith, has_prefix-grow s t p)

pub trim_prefix-append : (p s : Text) → trim_prefix (p ++ s) p ≡ s
unfolding trim_prefix
trim_prefix-append p s = rw (has_prefix-append p s) (drop-append p)
  where
    drop-append : (q : Text) → drop (length q) (q ++ s) ≡ s
    drop-append [] = refl
    drop-append (x ∷ q) = drop-append q

pub trim_suffix-append : (s p : Text) → has_suffix s p ≡ true → trim_suffix s p ++ p ≡ s
unfolding trim_suffix has_suffix
trim_suffix-append s p h = rw h (
    ground (
      arith,
      text_eq_iff (drop (length s - length p) s) p,
      take-append-drop (length s - length p) s,
    ))

pub contains-append_right : (s t sep : Text) → contains t sep ≡ true → contains (s ++ t) sep ≡ true
unfolding contains
contains-append_right [] t sep h = h
contains-append_right (x ∷ s) t sep h = ground (arith, contains-append_right s t sep h)

pub contains-append_left : (s t sep : Text) → contains s sep ≡ true → contains (s ++ t) sep ≡ true
unfolding contains has_prefix
contains-append_left [] [] sep h = h
contains-append_left [] (y ∷ t) [] h = refl
contains-append_left [] (y ∷ t) (z ∷ sep) h = cc
contains-append_left (x ∷ s) t sep h =
    ground (arith, has_prefix-grow (x ∷ s) t sep, contains-append_left s t sep)

-- What `cut` finds: the text in three pieces, the first free of the separator; or no separator.
abbrev pub Pieces : Text → Text → Option (Text × Text) → Type 0
Pieces s sep none = contains s sep ≡ false
Pieces s sep (some (a, b)) =
    (s ≡ a ++ (sep ++ b)) × (contains s sep ≡ true) × (contains a sep ≡ false)

Pieces-cons :
    (x c : ℕ) (s cs : Text) (r : Option (Text × Text))
    → has_prefix (x ∷ s) (c ∷ cs) ≡ false
    → Pieces s (c ∷ cs) r
    → Pieces (x ∷ s) (c ∷ cs) (elim r [ none ↦ none | some (a, b) ↦ some (x ∷ a, b) ])
unfolding contains
Pieces-cons x c s cs none n p = ground arith
Pieces-cons x c s cs (some (a, b)) n (e, f, g) =
    (ground arith, ground arith, ground (arith, has_prefix-grow (x ∷ a) ((c ∷ cs) ++ b) (c ∷ cs)))

pub cut-Pieces : (s : Text) (c : ℕ) (cs : Text) → Pieces s (c ∷ cs) (cut s (c ∷ cs))
unfolding cut contains has_prefix
cut-Pieces [] c cs = refl
cut-Pieces (x ∷ s) c cs = elim (Bool-cases (has_prefix (x ∷ s) (c ∷ cs))) [
  | inl e ↦ rw e (has_prefix-drop (x ∷ s) (c ∷ cs) e, ground arith, refl)
  | inr e ↦ rw e (Pieces-cons x c s cs (cut s (c ∷ cs)) e (cut-Pieces s c cs))
]

-- A text without a word has no piece with it.
abbrev pub Lacks : Text → Text → Type 0
Lacks w s = contains s w ≡ false

pub Lacks-append_left : (w s t : Text) → Lacks w (s ++ t) → Lacks w s
Lacks-append_left w s t h = elim (Bool-cases (contains s w)) [
  | inl e ↦ cc (contains-append_left s t w e)
  | inr e ↦ e
]

pub Lacks-append_right : (w s t : Text) → Lacks w (s ++ t) → Lacks w t
Lacks-append_right w s t h = elim (Bool-cases (contains t w)) [
  | inl e ↦ cc (contains-append_right s t w e)
  | inr e ↦ e
]

-- The two ends of a cut.
pub cut-joins :
    (s : Text) (c : ℕ) (cs a b : Text)
    → cut s (c ∷ cs) ≡ some (a, b)
    → (s ≡ a ++ ((c ∷ cs) ++ b)) × (contains s (c ∷ cs) ≡ true) × (contains a (c ∷ cs) ≡ false)
cut-joins s c cs a b e = rw e at (cut-Pieces s c cs)

pub cut-none : (s : Text) (c : ℕ) (cs : Text) → cut s (c ∷ cs) ≡ none → Lacks (c ∷ cs) s
cut-none s c cs e = rw e at (cut-Pieces s c cs)

pub cut-some :
    (s : Text) (c : ℕ) (cs : Text)
    → contains s (c ∷ cs) ≡ true
    → (p : Text × Text) × (cut s (c ∷ cs) ≡ some p)
cut-some s c cs h = elim (Option-cases (cut s (c ∷ cs))) [
  | inl e ↦ cc (cut-none s c cs e)
  | inr f ↦ f
]

join-cons_split :
    (n : ℕ) (a b : Text) (c : ℕ) (cs : Text)
    → join (a ∷ split_loop n b (c ∷ cs)) (c ∷ cs)
      ≡ a ++ ((c ∷ cs) ++ join (split_loop n b (c ∷ cs)) (c ∷ cs))
unfolding join split_loop
join-cons_split zero a b c cs = refl
join-cons_split (suc n) a b c cs = elim (Option-cases (cut b (c ∷ cs))) [
  | inl e ↦ rw (e, split_loop)
  | inr (p, e) ↦ rw (e, split_loop)
]

join-split_loop :
    (n : ℕ) (s : Text) (c : ℕ) (cs : Text) → join (split_loop n s (c ∷ cs)) (c ∷ cs) ≡ s
unfolding join split_loop
join-split_loop zero s c cs = refl
join-split_loop (suc n) s c cs = elim (Option-cases (cut s (c ∷ cs))) [
  | inl e ↦ rw (e, split_loop)
  | inr ((a, b), e) ↦
      rw (e, split_loop)
        (rw (join-cons_split n a b c cs, join-split_loop n b c cs) (sym (cut-joins s c cs a b e).0))
]

-- `strings.Join` undoes `strings.Split`.
pub join-split : (s : Text) (c : ℕ) (cs : Text) → join (split s (c ∷ cs)) (c ∷ cs) ≡ s
unfolding split
join-split s c cs = join-split_loop (length s) s c cs

split_loop-Lacks :
    (w : Text) (n : ℕ) (s : Text) (c : ℕ) (cs : Text)
    → Lacks w s
    → All (Lacks w) (split_loop n s (c ∷ cs))
unfolding split_loop
split_loop-Lacks w zero s c cs h = (h, tt)
split_loop-Lacks w (suc n) s c cs h = elim (Option-cases (cut s (c ∷ cs))) [
  | inl e ↦ rw (e, split_loop) (h, tt)
  | inr ((a, b), e) ↦
      let whole : Lacks w (a ++ ((c ∷ cs) ++ b)) = rw (cut-joins s c cs a b e).0 at h in
      let rest : Lacks w b = Lacks-append_right w (c ∷ cs) b (Lacks-append_right w a _ whole) in
      rw (e, split_loop) (Lacks-append_left w a _ whole, split_loop-Lacks w n b c cs rest)
]

pub split-Lacks : (w s : Text) (c : ℕ) (cs : Text) → Lacks w s → All (Lacks w) (split s (c ∷ cs))
unfolding split
split-Lacks w s c cs h = split_loop-Lacks w (length s) s c cs h

pub remove_spaces-Lacks : (s : Text) → Lacks (b' ' ∷ []) (remove_spaces s)
unfolding remove_spaces contains has_prefix
remove_spaces-Lacks [] = refl
remove_spaces-Lacks (x ∷ s) = ground (arith, remove_spaces-Lacks s)

cut_of_length :
    {i : ℕ} (r : Option (Text × Text))
    → elim r [ none ↦ none | some (a, b) ↦ some (length a) ] ≡ some i
    → (a : Text) × (b : Text) × (r ≡ some (a, b)) × (i ≡ length a)
cut_of_length none h = cc
cut_of_length (some (a, b)) h = (a, b, refl, ground arith)

-- `strings.Index` counts the bytes before the first cut.
pub index-cut :
    (s sep : Text) {i : ℕ}
    → index s sep ≡ some i
    → (a : Text) × (b : Text) × (cut s sep ≡ some (a, b)) × (i ≡ length a)
unfolding index
index-cut s sep h = cut_of_length (cut s sep) h

pub take-append : (s t : Text) → take (length s) (s ++ t) ≡ s
take-append [] t = refl
take-append (x ∷ s) t = ap (◌∷◌ x) (take-append s t)
