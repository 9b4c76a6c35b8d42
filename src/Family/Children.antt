-- ===== src/Family/Children.antt =====
-- The pointers as lists of children.
use os_exercises.Base.{
  ℕ, ◌+◌, ◌≡◌, ◌≢◌, inl, inr, refl, sym, ◌∙◌, true, false, Option, none, some, List, [], ◌∷◌, arith,
  ◌==◌, if◌then◌else◌, Bool-cases, done,
}
use os_exercises.Wait.{member, first}
use os_exercises.Sem.Queue.{Distinct}
use os_exercises.Family.{Links, push_child, set_links}

-- The list `cs` behind `before` among the children of `q`.
abbrev pub Linked : Links → ℕ → Option ℕ → List ℕ → Type 0
Linked l q before [] = Unit
Linked l q before (a ∷ cs) =
    (l.yptr a ≡ before) × (l.optr a ≡ first cs) × (l.parent a ≡ some q) × Linked l q (some a) cs

-- The pointers say that `children q` are the children of `q`, the youngest first.
pub record Represents (children : ℕ → List ℕ) (l : Links) : Type 0 where
  pub heads : (q : ℕ) → l.cptr q ≡ first (children q)
  pub linked : (q : ℕ) → Linked l q none (children q)
  pub distinct : (q : ℕ) → Distinct (children q)

abbrev pub put_children : (ℕ → List ℕ) → ℕ → List ℕ → ℕ → List ℕ
put_children children q cs r = if r == q then cs else children r

pub Linked-parent :
    (l : Links) (q a : ℕ) (before : Option ℕ) (cs : List ℕ)
    → Linked l q before cs
    → member a cs ≡ true
    → l.parent a ≡ some q
Linked-parent l q a before [] h m = cc
Linked-parent l q a before (c ∷ cs) h m = elim (Bool-cases (a == c)) [
  | inl e ↦ let at : a ≡ c = ground arith in rw at h.2
  | inr e ↦ Linked-parent l q a (some c) cs h.3 (ground arith)
]

-- Pointers of other processes do not matter.
pub Linked-same :
    (l l' : Links) (q : ℕ) (before : Option ℕ) (cs : List ℕ)
    → ((a : ℕ)
        → member a cs ≡ true
        → (l'.yptr a ≡ l.yptr a) × (l'.optr a ≡ l.optr a) × (l'.parent a ≡ l.parent a))
    → Linked l q before cs
    → Linked l' q before cs
Linked-same l l' q before [] same h = tt
Linked-same l l' q before (c ∷ cs) same h =
    let (y, o, p) = same c (ground arith) in
    (
      rw y h.0,
      rw o h.1,
      rw p h.2,
      Linked-same l l' q (some c) cs (λ a m. same a (ground arith)) h.3,
    )

pub member_ne : (i j : ℕ) (l : List ℕ) → member i l ≡ true → member j l ≡ false → i ≢ j
member_ne i j [] m n e = cc
member_ne i j (k ∷ l) m n e = ground (arith, member_ne i j l)

pub push-Linked :
    (l : Links) (q p : ℕ) (cs : List ℕ)
    → l.cptr q ≡ first cs
    → Linked l q none cs
    → Distinct cs
    → member p cs ≡ false
    → l.parent p ≡ some q
    → Linked (push_child q p l) q none (p ∷ cs)
push-Linked l q p [] e h d m par = (ground (arith, e), ground (arith, e), par, tt)
push-Linked l q p (c ∷ cs) e h d m par = (
  rw e (ground arith),
  rw e (ground arith),
  par,
  (
    rw e (ground arith),
    rw e (ground (arith, h.1)),
    h.2,
    Linked-same l (push_child q p l) q (some c) cs (others cs d.0 (ground arith)) h.3,
  ),
)
  where
    others :
        (ds : List ℕ)
        → member c ds ≡ false
        → member p ds ≡ false
        → (a : ℕ) → member a ds ≡ true
        → ((push_child q p l).yptr a ≡ l.yptr a)
          × ((push_child q p l).optr a ≡ l.optr a)
          × ((push_child q p l).parent a ≡ l.parent a)
    others ds out_c out_p a inside =
        let ne_c = member_ne a c ds inside out_c in
        let ne_p = member_ne a p ds inside out_p in (rw e (ground arith), ground arith, refl)

-- A process whose parent is `q` is no child of another process.
pub not_child :
    {children : ℕ → List ℕ} (l : Links) (q r a p : ℕ)
    → Represents children l
    → r ≢ q
    → member a (children r) ≡ true
    → l.parent p ≡ some q
    → a ≢ p
not_child {children} l q r a p v ne m par e =
    let child = Linked-parent l r a none (children r) (v.linked r) m in
    let child_p : l.parent p ≡ some r = rw e at child in ne (some-injective (sym child_p ∙ par))
  where
    some-injective : {x y : ℕ} → some x ≡ some y → x ≡ y
    some-injective h = cc h

pub push-others :
    {children : ℕ → List ℕ} (l : Links) (q r p : ℕ)
    → Represents children l
    → r ≢ q
    → l.parent p ≡ some q
    → Linked (push_child q p l) r none (children r)
push-others {children} l q r p v ne par =
    Linked-same l (push_child q p l) r none (children r) (same (children q) refl) (v.linked r)
  where
    same :
        (cs : List ℕ)
        → children q ≡ cs
        → (a : ℕ) → member a (children r) ≡ true
        → ((push_child q p l).yptr a ≡ l.yptr a)
          × ((push_child q p l).optr a ≡ l.optr a)
          × ((push_child q p l).parent a ≡ l.parent a)
    same [] e a m =
        let head : l.cptr q ≡ none = rw e at (v.heads q) in
        let ne_p = not_child l q r a p v ne m par in (rw head (ground arith), ground arith, refl)
    same (c ∷ cs) e a m =
        let head : l.cptr q ≡ some c = rw e at (v.heads q) in
        let ne_p = not_child l q r a p v ne m par in
        let linked : Linked l q none (c ∷ cs) = rw e at (v.linked q) in
        let ne_c = not_child l q r a c v ne m linked.2 in
        (rw head (ground arith), ground arith, refl)

pub push-Represents :
    {children : ℕ → List ℕ} (l : Links) (q p : ℕ)
    → Represents children l
    → l.parent p ≡ some q
    → member p (children q) ≡ false
    → Represents (put_children children q (p ∷ children q)) (push_child q p l)
push-Represents {children} l q p v par new = record {
  heads = λ r. ground (arith, v.heads r);
  linked = λ r. elim (Bool-cases (r == q)) [
    | inl e ↦
        let at : r ≡ q = ground arith in
        let here : put_children children q (p ∷ children q) q ≡ p ∷ children q = ground arith in
        rw (at, here)
          (push-Linked l q p (children q) (v.heads q) (v.linked q) (v.distinct q) new par)
    | inr e ↦ rw e (push-others l q r p v (ground arith) par)
  ];
  distinct = λ r. elim (Bool-cases (r == q)) [
    | inl e ↦
        let at : r ≡ q = ground arith in
        let here : put_children children q (p ∷ children q) q ≡ p ∷ children q = ground arith in
        rw (at, here) (new, v.distinct q)
    | inr e ↦ rw e (v.distinct r)
  ];
}

-- Where the pointers represent lists of children, `set_links` makes a process that is not yet a
-- child of its parent the first child of it, and leaves the children of all others as they are. The
-- process is in the list of all processes, and counted.
pub set_links-Represents :
    {children : ℕ → List ℕ} (l : Links) (q p : ℕ)
    → Represents children l
    → l.parent p ≡ some q
    → member p (children q) ≡ false
    → (l' : Links) × (set_links p l ≡ done l')
      × Represents (put_children children q (p ∷ children q)) l'
      × (l'.proc_list ≡ p ∷ l.proc_list)
      × (l'.nr_process ≡ l.nr_process + 1)
unfolding set_links
set_links-Represents l q p v par new =
    let pushed = push-Represents l q p v par new in
    (
      record (push_child q p l) { proc_list = p ∷ l.proc_list; nr_process = l.nr_process + 1 },
      rw par refl,
      record {
        heads = pushed.heads;
        linked = λ r. relist r none _ (pushed.linked r);
        distinct = pushed.distinct;
      },
      refl,
      refl,
    )
  where
    relist :
        (r : ℕ) (before : Option ℕ) (cs : List ℕ)
        → Linked (push_child q p l) r before cs
        → Linked
            (record (push_child q p l) {
              proc_list = p ∷ l.proc_list;
              nr_process = l.nr_process + 1;
            })
            r
            before
            cs
    relist r before [] h = tt
    relist r before (c ∷ cs) h = (h.0, h.1, h.2, relist r (some c) cs h.3)
