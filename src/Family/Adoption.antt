-- ===== src/Family/Adoption.antt =====
-- The loop of `do_exit` over the children of the process that exits.
use os_exercises.Base.{
  ℕ, suc, ◌≡◌, ◌≢◌, inl, inr, refl, sym, ap, ◌∙◌, true, false, Option, none, some, List, [], ◌∷◌,
  arith, ◌==◌, ◌&&◌, length, if◌then◌else◌, Bool-cases, done,
}
use os_exercises.Sched.{
  proc_runnable, put_proc, Kernel, is_zombie, is_runnable, wakeup_proc, sched_class_enqueue,
}
use os_exercises.Wait.{member, first}
use os_exercises.Sem.Queue.{Distinct}
use os_exercises.Family.{Links, initproc, wt_child, put, adopt, notify, adopt_all}
use os_exercises.Family.Children.{
  Linked, Represents, put_children, Linked-parent, Linked-same, push-Linked, member_ne,
}

-- The children of all processes, where the first child of `current` need not know that it is first.
record Partly (children : ℕ → List ℕ) (l : Links) (current : ℕ) (before : Option ℕ) : Type 0 where
  heads : (q : ℕ) → l.cptr q ≡ first (children q)
  linked : (q : ℕ) → q ≢ current → Linked l q none (children q)
  rest : Linked l current before (children current)
  distinct : (q : ℕ) → Distinct (children q)

-- The lists after one round.
abbrev handed : (ℕ → List ℕ) → ℕ → ℕ → List ℕ → ℕ → List ℕ
handed children current p ds =
    put_children (put_children children current ds) initproc (p ∷ children initproc)

some-injective : {x y : ℕ} → some x ≡ some y → x ≡ y
some-injective h = cc h

other_parent : (l : Links) (q r a b : ℕ) → r ≢ q → l.parent a ≡ some r → l.parent b ≡ some q → a ≢ b
other_parent l q r a b ne pa pb same =
    let pa' : l.parent b ≡ some r = rw same at pa in ne (some-injective (sym pa' ∙ pb))

not_member : {p : ℕ} (l : List ℕ) → ((a : ℕ) → member a l ≡ true → a ≢ p) → member p l ≡ false
not_member {p} l out = elim (Bool-cases (member p l)) [
  | inl inside ↦ absurd (out p inside refl)
  | inr e ↦ e
]

module _ {children : ℕ → List ℕ} (l : Links) (current p : ℕ) (ds : List ℕ) (before : Option ℕ)
    (apart : current ≢ initproc) (v : Partly children l current before)
    (e : children current ≡ p ∷ ds) where
  open_list : Linked l current before (p ∷ ds)
  open_list = rw e at v.rest

  fresh : Distinct (p ∷ ds)
  fresh = rw e at (v.distinct current)

  -- A child of neither `initproc` nor the moved one keeps its pointers.
  away :
      (r : ℕ) (b : Option ℕ) (cs : List ℕ)
      → r ≢ initproc
      → Linked l r b cs
      → ((a : ℕ) → member a cs ≡ true → a ≢ p)
      → Linked (adopt current p l) r b cs
  away r b cs ne h out = Linked-same l (adopt current p l) r b cs (same (children initproc) refl) h
    where
      same :
          (is : List ℕ)
          → children initproc ≡ is
          → (a : ℕ) → member a cs ≡ true
          → ((adopt current p l).yptr a ≡ l.yptr a)
            × ((adopt current p l).optr a ≡ l.optr a)
            × ((adopt current p l).parent a ≡ l.parent a)
      same [] list a m =
          let head : l.cptr initproc ≡ none = rw list at (v.heads initproc) in
          let ne_p = out a m in (ground (arith, head), ground arith, ground arith)
      same (i ∷ is) list a m =
          let head : l.cptr initproc ≡ some i = rw list at (v.heads initproc) in
          let ne_p = out a m in
          let init : Linked l initproc none (i ∷ is) =
            rw list at (v.linked initproc (λ s. apart (sym s))) in
          let ne_i = other_parent l initproc r a i ne (Linked-parent l r a b cs h m) init.2 in
          (ground (arith, head), ground arith, ground arith)

  init-Linked : Linked (adopt current p l) initproc none (p ∷ children initproc)
  init-Linked =
      let m = record l {
        cptr = put current (l.optr p) l.cptr;
        parent = put p (some initproc) l.parent;
      } in
      let is = children initproc in
      let old = v.linked initproc (λ s. apart (sym s)) in
      let ne = λ (a : ℕ) (inside : member a is ≡ true).
        other_parent l current initproc a p (λ s. apart (sym s))
          (Linked-parent l initproc a none is old inside) open_list.2 in
      push-Linked m initproc p is (ground (arith, v.heads initproc))
        (Linked-same l m initproc none is
          (λ a inside. let away_p = ne a inside in (refl, refl, ground arith)) old)
        (v.distinct initproc) (not_member is ne) (ground arith)

  -- One round moves the first child of `current` to the front of the children of `initproc`.
  adopt-Partly : Partly (handed children current p ds) (adopt current p l) current (some p)
  adopt-Partly = record {
    heads = λ q. ground (arith, v.heads q, open_list.1);
    linked = λ q ne. at_other q ne;
    rest =
        let other : (current == initproc) ≡ false = ground arith in
        let here : (current == current) ≡ true = ground arith in
        rw (other, here)
          (away current (some p) ds apart open_list.3 (λ a m. member_ne a p ds m fresh.0));
    distinct = λ q. distinct_at q;
  }
    where
      lone : (a : ℕ) → member a (children initproc) ≡ true → a ≢ p
      lone a m =
          other_parent l current initproc a p (λ s. apart (sym s))
            (Linked-parent l initproc a none (children initproc)
              (v.linked initproc (λ s. apart (sym s))) m)
            open_list.2

      at_other :
          (q : ℕ) → q ≢ current → Linked (adopt current p l) q none (handed children current p ds q)
      at_other q ne = elim (Bool-cases (q == initproc)) [
        | inl is_init ↦ let at : q ≡ initproc = ground arith in rw at init-Linked
        | inr other ↦
            let apart_too : (q == current) ≡ false = ground arith in
            rw (other, apart_too)
              (away q none (children q) (ground arith) (v.linked q ne) (λ a m.
                other_parent l current q a p ne
                  (Linked-parent l q a none (children q) (v.linked q ne) m) open_list.2))
      ]

      distinct_at : (q : ℕ) → Distinct (handed children current p ds q)
      distinct_at q = elim (Bool-cases (q == initproc)) [
        | inl is_init ↦ rw is_init (not_member (children initproc) lone, v.distinct initproc)
        | inr other ↦ elim (Bool-cases (q == current)) [
          | inl here ↦ rw (other, here) fresh.1
          | inr apart_too ↦ rw (other, apart_too) (v.distinct q)
        ]
      ]

-- The processes of `cs`, each in front of the ones before it, in front of `is`.
abbrev pub onto : List ℕ → List ℕ → List ℕ
onto [] is = is
onto (p ∷ ds) is = onto ds (p ∷ is)

abbrev pub inherited : (ℕ → List ℕ) → ℕ → List ℕ → ℕ → List ℕ
inherited children current cs q =
    if q == initproc then onto cs (children initproc) else if q == current then [] else children q

wakes_alive :
    (k : Kernel)
    → is_zombie (k.procs initproc).state ≡ false
    → (k' : Kernel) × (wakeup_proc initproc k ≡ done k')
      × (is_zombie (k'.procs initproc).state ≡ false)
unfolding wakeup_proc sched_class_enqueue
wakes_alive k alive = elim (Bool-cases (is_runnable (k.procs initproc).state)) [
  | inl e ↦ (k, ground (arith, alive), alive)
  | inr e ↦
      let c = record (k.procs initproc) { state = proc_runnable; wait_state = 0 } in
      let woken = put_proc initproc c k in
      let k' = if initproc == k.current then woken else sched_class_enqueue initproc woken in
      (k', ground (arith, alive), ground arith)
]

notify_lem :
    (p : ℕ) (k : Kernel)
    → is_zombie (k.procs initproc).state ≡ false
    → (k' : Kernel) × (notify p k ≡ done k') × (is_zombie (k'.procs initproc).state ≡ false)
notify_lem p k alive =
    elim (Bool-cases (is_zombie (k.procs p).state && (k.procs initproc).wait_state == wt_child)) [
      | inr quiet ↦ (k, rw quiet refl, alive)
      | inl wakes ↦ let (k', run, lives) = wakes_alive k alive in (k', rw wakes run, lives)
    ]

run_round :
    (current p : ℕ) (l : Links) (k k1 : Kernel) (fuel : ℕ) (ds : List ℕ) {r : Links × Kernel}
    → notify p k ≡ done k1
    → (adopt current p l).cptr current ≡ first ds
    → adopt_all fuel current (first ds) (adopt current p l) k1 ≡ done r
    → adopt_all (suc fuel) current (some p) l k ≡ done r
unfolding adopt_all
run_round current p l k k1 fuel ds told head run = rw (told, head) run

adopt_all-Partly :
    (cs : List ℕ) (children : ℕ → List ℕ) (l : Links) (k : Kernel) (current : ℕ) (before : Option ℕ)
    → current ≢ initproc
    → Partly children l current before
    → children current ≡ cs
    → is_zombie (k.procs initproc).state ≡ false
    → (l' : Links) × (k' : Kernel) × (children' : ℕ → List ℕ) × (b : Option ℕ) × (adopt_all
          (length cs)
          current
          (first cs)
          l
          k
        ≡ done (l', k'))
      × Partly children' l' current b
      × ((q : ℕ) → children' q ≡ inherited children current cs q)
unfolding adopt_all
adopt_all-Partly [] children l k current before apart v e alive =
    (l, k, children, before, refl, v, λ q. ground (arith, e))
adopt_all-Partly (p ∷ ds) children l k current before apart v e alive =
    let (k1, told, alive') = notify_lem p k alive in
    let l1 = adopt current p l in
    let moved = adopt-Partly l current p ds before apart v e in
    let here : handed children current p ds current ≡ ds = (ground arith) in
    let (l', k', children', b, run, final, lists) =
      adopt_all-Partly ds (handed children current p ds) l1 k1 current (some p) apart moved here
        alive' in
    (
      l',
      k',
      children',
      b,
      run_round current p l k k1 (length ds) ds told (moved.heads current ∙ ap first here) run,
      final,
      λ q. lists q ∙ inherit q e apart,
    )
  where
    inherit :
        (q : ℕ)
        → children current ≡ p ∷ ds
        → current ≢ initproc
        → inherited (handed children current p ds) current ds q
          ≡ inherited children current (p ∷ ds) q
    inherit q e apart = ground arith

-- When a process other than `initproc` exits, while the pointers represent lists of children and
-- `initproc` is no zombie, `initproc` gets all its children: they come in front of its own, the
-- youngest last, the process is left with none, and nobody else's children change; the loop ends.
pub adopt_all-Represents :
    {children : ℕ → List ℕ} (l : Links) (k : Kernel) (current : ℕ)
    → Represents children l
    → current ≢ initproc
    → is_zombie (k.procs initproc).state ≡ false
    → (l' : Links) × (k' : Kernel) × (children' : ℕ → List ℕ) × (adopt_all
          (length (children current))
          current
          (l.cptr current)
          l
          k
        ≡ done (l', k'))
      × Represents children' l'
      × ((q : ℕ) → children' q ≡ inherited children current (children current) q)
adopt_all-Represents {children} l k current v apart alive =
    let partly : Partly children l current none = record {
      heads = v.heads;
      linked = λ q ne. v.linked q;
      rest = v.linked current;
      distinct = v.distinct;
    } in
    let (l', k', children', b, run, final, lists) =
      adopt_all-Partly (children current) children l k current none apart partly refl alive in
    (
      l',
      k',
      children',
      rw (v.heads current) run,
      record {
        heads = final.heads;
        linked = λ q. closed l' children' q (lists q) (final.linked q);
        distinct = final.distinct;
      },
      lists,
    )
  where
    closed :
        (l' : Links) (children' : ℕ → List ℕ) (q : ℕ)
        → children' q ≡ inherited children current (children current) q
        → (q ≢ current → Linked l' q none (children' q))
        → Linked l' q none (children' q)
    closed l' children' q list other = elim (Bool-cases (q == current)) [
      | inr e ↦ other (ground arith)
      | inl e ↦
          let apart_too : (q == initproc) ≡ false = ground arith in
          let empty : children' q ≡ [] = list ∙ rw (apart_too, e) refl in rw empty tt
    ]
