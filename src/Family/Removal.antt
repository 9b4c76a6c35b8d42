-- ===== src/Family/Removal.antt =====
-- `remove_links` on the lists of children.
use os_exercises.Base.{
  ℕ, ◌≡◌, ◌≢◌, inl, inr, refl, sym, ◌∙◌, true, none, some, List, [], ◌∷◌, arith, ◌==◌,
  if◌then◌else◌, Bool-cases, Option-cases,
}
use os_exercises.Wait.{member, first, unlink}
use os_exercises.Family.{Links, remove_links}
use os_exercises.Family.Children.{
  Linked, Represents, put_children, Linked-parent, Linked-same, not_child,
}
use os_exercises.Family.Unlink.{
  Removed, put_at_ne, older-member, younger-member, unlink-Linked, unlink-Distinct, new_first,
  unlink-first,
}

removed : (l : Links) (p : ℕ) → Removed l p (l.yptr p) (l.optr p) (remove_links p l)
unfolding remove_links
removed l p = record { yptr = λ a. refl; optr = λ a. refl; parent = λ a. refl }

cptr-remove_links :
    (l : Links) (q p r : ℕ)
    → l.parent p ≡ some q
    → (remove_links p l).cptr r
      ≡ (if r == q then new_first (l.yptr p) (l.optr p) (l.cptr q) else l.cptr r)
unfolding remove_links
cptr-remove_links l q p r par = elim (Option-cases (l.yptr p)) [
  | inl young ↦ rw (young, par) refl
  | inr (y, young) ↦ rw young (ground arith)
]

younger_child :
    (l : Links) (q p b : ℕ) (cs : List ℕ)
    → Linked l q none cs
    → member p cs ≡ true
    → l.yptr p ≡ some b
    → member b cs ≡ true
younger_child l q p b [] h m e = cc
younger_child l q p b (c ∷ cs) h m e = elim (Bool-cases (p == c)) [
  | inl at ↦ let same : p ≡ c = ground arith in cc (sym (rw same at e) ∙ h.0)
  | inr other ↦ younger-member l q p b c cs h.3 (ground arith) e
]

-- Where the pointers represent lists of children, `remove_links` takes a process out of the list of
-- the children of its parent, wherever it stands in it, and leaves the children of all others as
-- they are.
pub remove_links-Represents :
    {children : ℕ → List ℕ} (l : Links) (q p : ℕ)
    → Represents children l
    → member p (children q) ≡ true
    → Represents (put_children children q (unlink p (children q))) (remove_links p l)
remove_links-Represents {children} l q p v m =
    let par = Linked-parent l q p none (children q) (v.linked q) m in
    record {
      heads = λ r. head r par;
      linked = λ r. elim (Bool-cases (r == q)) [
        | inl e ↦
            let at : r ≡ q = ground arith in
            let here : put_children children q (unlink p (children q)) q ≡ unlink p (children q) =
              ground arith in
            rw (at, here)
              (unlink-Linked l (remove_links p l) q p none (children q) (removed l p) (v.linked q)
                (v.distinct q) m (λ b e. cc e))
        | inr e ↦ rw e (others r (ground arith) par)
      ];
      distinct = λ r. elim (Bool-cases (r == q)) [
        | inl e ↦
            let at : r ≡ q = ground arith in
            let here : put_children children q (unlink p (children q)) q ≡ unlink p (children q) =
              ground arith in
            rw (at, here) (unlink-Distinct p (children q) (v.distinct q))
        | inr e ↦ rw e (v.distinct r)
      ];
    }
  where
    head :
        (r : ℕ)
        → l.parent p ≡ some q
        → (remove_links p l).cptr r ≡ first (put_children children q (unlink p (children q)) r)
    head r par =
        cptr-remove_links l q p r par
        ∙ ground (arith, v.heads r, v.heads q, unlink-first l q p (children q) (v.linked q) m)

    others : (r : ℕ) → r ≢ q → l.parent p ≡ some q → Linked (remove_links p l) r none (children r)
    others r ne par =
        let left = removed l p in
        Linked-same l (remove_links p l) r none (children r)
          (λ a inside. (
            left.yptr a
                ∙ put_at_ne (l.optr p) (l.yptr p) l.yptr a (λ b e.
                  apart a b ne inside (older-member l q p b none (children q) (v.linked q) m e)),
            left.optr a
                ∙ put_at_ne (l.yptr p) (l.optr p) l.optr a (λ b e.
                  apart a b ne inside (younger_child l q p b (children q) (v.linked q) m e)),
            left.parent a,
          ))
          (v.linked r)
      where
        apart :
            (a b : ℕ) → r ≢ q → member a (children r) ≡ true → member b (children q) ≡ true → a ≢ b
        apart a b ne inside child =
            not_child l q r a b v ne inside
              (Linked-parent l q b none (children q) (v.linked q) child)
