-- ===== src/Family/Unlink.antt =====
-- The pointers around a process that leaves a list of children.
use os_exercises.Base.{
  ℕ, ◌≡◌, ◌≢◌, inl, inr, refl, sym, ◌∙◌, true, false, Option, none, some, List, [], ◌∷◌, arith,
  ◌==◌, Bool-cases,
}
use os_exercises.Wait.{member, first, unlink}
use os_exercises.Sem.Queue.{Distinct}
use os_exercises.Family.{Links, put_at}
use os_exercises.Family.Children.{Linked, Linked-same, member_ne}

-- `l'` has the pointers that `remove_links p` leaves, where `p` stands between `younger` and
-- `older`.
pub record Removed (l : Links) (p : ℕ) (younger older : Option ℕ) (l' : Links) : Type 0 where
  pub yptr : (a : ℕ) → l'.yptr a ≡ put_at older younger l.yptr a
  pub optr : (a : ℕ) → l'.optr a ≡ put_at younger older l.optr a
  pub parent : (a : ℕ) → l'.parent a ≡ l.parent a

pub put_at_ne :
    (o v : Option ℕ) (f : ℕ → Option ℕ) (a : ℕ)
    → ((b : ℕ) → o ≡ some b → a ≢ b)
    → put_at o v f a ≡ f a
put_at_ne none v f a h = refl
put_at_ne (some b) v f a h = let ne = h b refl in ground arith

some-injective : {x y : ℕ} → some x ≡ some y → x ≡ y
some-injective h = cc h

-- Behind `p`.
tail-Linked :
    (l l' : Links) (q p : ℕ) (before : Option ℕ) (cs : List ℕ)
    → Removed l p before (first cs) l'
    → Linked l q (some p) cs
    → Distinct cs
    → ((b : ℕ) → before ≡ some b → member b cs ≡ false)
    → Linked l' q before cs
tail-Linked l l' q p before [] r h d out = tt
tail-Linked l l' q p before (c ∷ cs) r h d out = (
  rw (r.yptr c) (ground arith),
  rw (r.optr c) (kept c (ground arith) ∙ h.1),
  rw (r.parent c) h.2,
  Linked-same l l' q (some c) cs (λ a m. same a m) h.3,
)
  where
    kept : (a : ℕ) → member a (c ∷ cs) ≡ true → put_at before (some c) l.optr a ≡ l.optr a
    kept a m = put_at_ne before (some c) l.optr a (λ b e. member_ne a b (c ∷ cs) m (out b e))

    same :
        (a : ℕ)
        → member a cs ≡ true
        → (l'.yptr a ≡ l.yptr a) × (l'.optr a ≡ l.optr a) × (l'.parent a ≡ l.parent a)
    same a m =
        let ne = member_ne a c cs m d.0 in
        (r.yptr a ∙ ground arith, r.optr a ∙ kept a (ground arith), r.parent a)

-- The neighbours of `p` stand in the list with it.
pub older-member :
    (l : Links) (q p b : ℕ) (before : Option ℕ) (cs : List ℕ)
    → Linked l q before cs
    → member p cs ≡ true
    → l.optr p ≡ some b
    → member b cs ≡ true
older-member l q p b before [] h m e = cc
older-member l q p b before (a ∷ cs) h m e = elim (Bool-cases (p == a)) [
  | inl at ↦
      let same : p ≡ a = ground arith in
      let next : first cs ≡ some b = sym h.1 ∙ rw same at e in later (first-member cs b next)
  | inr other ↦ later (older-member l q p b (some a) cs h.3 (ground arith) e)
]
  where
    later : member b cs ≡ true → member b (a ∷ cs) ≡ true
    later m = ground arith

    first-member : (ds : List ℕ) (x : ℕ) → first ds ≡ some x → member x ds ≡ true
    first-member [] x f = cc
    first-member (d ∷ ds) x f = let same : d ≡ x = some-injective f in ground arith

pub younger-member :
    (l : Links) (q p b : ℕ) (a : ℕ) (cs : List ℕ)
    → Linked l q (some a) cs
    → member p cs ≡ true
    → l.yptr p ≡ some b
    → member b (a ∷ cs) ≡ true
younger-member l q p b a [] h m e = cc
younger-member l q p b a (c ∷ cs) h m e = elim (Bool-cases (p == c)) [
  | inl at ↦
      let same : p ≡ c = ground arith in
      let young : l.yptr c ≡ some b = rw same at e in
      let is_a : a ≡ b = some-injective (sym h.0 ∙ young) in ground arith
  | inr other ↦ ground (arith, younger-member l q p b c cs h.3 (ground arith) e)
]

pub unlink-Linked :
    (l l' : Links) (q p : ℕ) (before : Option ℕ) (cs : List ℕ)
    → Removed l p (l.yptr p) (l.optr p) l'
    → Linked l q before cs
    → Distinct cs
    → member p cs ≡ true
    → ((b : ℕ) → before ≡ some b → member b cs ≡ false)
    → Linked l' q before (unlink p cs)
unfolding unlink
unlink-Linked l l' q p before [] r h d m out = tt
unlink-Linked l l' q p before (a ∷ cs) r h d m out = elim (Bool-cases (p == a)) [
  | inl at ↦
      let same : p ≡ a = ground arith in
      let young : l.yptr p ≡ before = rw same h.0 in
      let old : l.optr p ≡ first cs = rw same h.1 in
      let r' : Removed l p before (first cs) l' = rw (young, old) at r in
      let h' : Linked l q (some p) cs = rw same h.3 in
      rw at (tail-Linked l l' q p before cs r' h' d.1 (λ b e. ground (arith, out b e)))
  | inr other ↦
      let inside : member p cs ≡ true = ground arith in
      let rest =
        unlink-Linked l l' q p (some a) cs r h.3 d.1 inside (λ b e. alone b (some-injective e)) in
      rw other (
        r.yptr a ∙ put_at_ne (l.optr p) (l.yptr p) l.yptr a (λ b e. older b e inside) ∙ h.0,
        r.optr a ∙ next cs h.3 d.0 inside h.1,
        r.parent a ∙ h.2,
        rest,
      )
]
  where
    alone : (b : ℕ) → a ≡ b → member b cs ≡ false
    alone b e = rw (← e) d.0

    older : (b : ℕ) → l.optr p ≡ some b → member p cs ≡ true → a ≢ b
    older b e inside same =
        let found = older-member l q p b (some a) cs h.3 inside e in cc (sym found ∙ alone b same)

    next :
        (ds : List ℕ)
        → Linked l q (some a) ds
        → member a ds ≡ false
        → member p ds ≡ true
        → l.optr a ≡ first ds
        → put_at (l.yptr p) (l.optr p) l.optr a ≡ first (unlink p ds)
    next [] k out m e = cc
    next (c ∷ ds) k out m e = elim (Bool-cases (p == c)) [
      | inl at ↦
          let same : p ≡ c = ground arith in
          let young : l.yptr p ≡ some a = rw same k.0 in
          let old : l.optr p ≡ first ds = rw same k.1 in rw (young, at) (ground (arith, old))
      | inr other ↦ rw other (
          put_at_ne (l.yptr p) (l.optr p) l.optr a
            (λ b y. member_ne_sym b (younger-member l q p b c ds k.3 (ground arith) y))
          ∙ e)
    ]
      where
        member_ne_sym : (b : ℕ) → member b (c ∷ ds) ≡ true → a ≢ b
        member_ne_sym b m same = member_ne b a (c ∷ ds) m out (sym same)

pub unlink-Distinct : (p : ℕ) (cs : List ℕ) → Distinct cs → Distinct (unlink p cs)
unfolding unlink
unlink-Distinct p [] d = tt
unlink-Distinct p (c ∷ cs) d = elim (Bool-cases (p == c)) [
  | inl e ↦ rw e d.1
  | inr e ↦ rw e (out cs d.0, unlink-Distinct p cs d.1)
]
  where
    out : (ds : List ℕ) → member c ds ≡ false → member c (unlink p ds) ≡ false
    out [] m = refl
    out (x ∷ ds) m = ground (arith, out ds)

-- A process behind another one has a younger neighbour.
has_younger :
    (l : Links) (q p a : ℕ) (cs : List ℕ)
    → Linked l q (some a) cs
    → member p cs ≡ true
    → (y : ℕ) × (l.yptr p ≡ some y)
has_younger l q p a [] h m = cc
has_younger l q p a (c ∷ cs) h m = elim (Bool-cases (p == c)) [
  | inl e ↦ let same : p ≡ c = ground arith in (a, rw same h.0)
  | inr e ↦ has_younger l q p c cs h.3 (ground arith)
]

-- The first child after the removal of `p`.
abbrev pub new_first : Option ℕ → Option ℕ → Option ℕ → Option ℕ
new_first none older old = older
new_first (some y) older old = old

pub unlink-first :
    (l : Links) (q p : ℕ) (cs : List ℕ)
    → Linked l q none cs
    → member p cs ≡ true
    → first (unlink p cs) ≡ new_first (l.yptr p) (l.optr p) (first cs)
unfolding unlink
unlink-first l q p [] h m = cc
unlink-first l q p (c ∷ cs) h m = elim (Bool-cases (p == c)) [
  | inl e ↦
      let same : p ≡ c = ground arith in
      let young : l.yptr p ≡ none = rw same h.0 in
      let old : l.optr p ≡ first cs = rw same h.1 in rw (e, young, old) refl
  | inr e ↦ let (y, young) = has_younger l q p c cs h.3 (ground arith) in rw (e, young) refl
]
