-- ===== src/Exit/Reaps.antt =====
-- What `do_wait` does for any child.
use os_exercises.Base.{
  ℕ, ◌-◌, ◌≡◌, ◌≢◌, refl, sym, ap, if◌then◌else◌, ◌∙◌, inl, inr, ◌⊎◌, Bool, true, false, Option,
  none, some, List, [], ◌∷◌, arith, ◌==◌, ◌||◌, length, Bool-cases, Option-cases, done, Outcome,
  e_bad_proc,
}
use os_exercises.Wait.{member, unlink}
use os_exercises.Sched.{
  Kernel, Proc, idleproc, is_zombie, is_runnable, proc_sleeping, put_proc, schedule,
}
use os_exercises.Sched.Ready.{count, IsValid, Picks, schedule-IsValid, schedule-Like}
use os_exercises.Family.{Links, initproc, wt_child, unlist, remove_links}
use os_exercises.Family.Children.{Represents, member_ne, put_children}
use os_exercises.Family.Removal.{remove_links-Represents}
use os_exercises.Family.Search.{first_zombie, find_zombie-youngest, has_any}
use os_exercises.Process.{World, put, pid_hashfn, list_del, unhash_proc}
use os_exercises.Fork.{put_kstack, free_proc}
use os_exercises.Fork.Fails.{put_kstack-run}
use os_exercises.Exit.{
  Waited, reaped, asleep, refused, find_kid, unlinked, reap, sleep_for_child, wait_round, do_wait,
}

first_zombie-member :
    (k : Kernel) (p : ℕ) (cs : List ℕ) → first_zombie k cs ≡ some p → member p cs ≡ true
first_zombie-member k p [] h = absurd (ground (arith, h))
first_zombie-member k p (c ∷ cs) h = elim (Bool-cases (is_zombie (k.procs c).state)) [
  | inl e ↦ let same : c ≡ p = cc (rw e at h) in ground arith
  | inr e ↦ let rest = first_zombie-member k p cs (rw e at h) in ground arith
]

sleeping-IsValid :
    (k : Kernel)
    → IsValid k
    → IsValid (
        put_proc k.current
          (record (k.procs k.current) { state = proc_sleeping; wait_state = wt_child })
          k)
sleeping-IsValid k v = record { queued = λ q. ground (arith, v.queued q) }

-- The list has lost one place of `p`.
abbrev pub Dropped : ℕ → List ℕ → List ℕ → Type 0
Dropped p l l' = (q : ℕ) → count q l' ≡ (if q == p then count q l - 1 else count q l)

list_del-Dropped : (p : ℕ) (l : List ℕ) → Dropped p l (list_del p l)
unfolding list_del
list_del-Dropped p [] q = ground arith
list_del-Dropped p (x ∷ l) q = ground (arith, list_del-Dropped p l q)

unlist-Dropped : (p : ℕ) (l : List ℕ) → Dropped p l (unlist p l)
unlist-Dropped p [] q = ground arith
unlist-Dropped p (x ∷ l) q = ground (arith, unlist-Dropped p l q)

-- The zombie is gone, with its stack and from the lists, and its code is returned.
pub record Reaped (children : ℕ → List ℕ) (p : ℕ) (w w' : World) : Type 0 where
  pub links :
      Represents
        (put_children children w.kernel.current (unlink p (children w.kernel.current)))
        w'.links
  pub hashed :
      Dropped p
        (w.hash_list (pid_hashfn (w.tasks p).pid))
        (w'.hash_list (pid_hashfn (w.tasks p).pid))
  pub unhashed : (b : ℕ) → b ≢ pid_hashfn (w.tasks p).pid → w'.hash_list b ≡ w.hash_list b
  pub listed : Dropped p w.links.proc_list w'.links.proc_list
  pub nr_process : w'.links.nr_process ≡ w.links.nr_process - 1
  pub kernel : w'.kernel ≡ w.kernel
  pub procs : (x : ℕ) → w'.memory.procs x ≡ put p false w.memory.procs x
  pub stacks :
      (s : ℕ)
      → (w.tasks p).kstack ≡ some s
      → (x : ℕ) → w'.memory.stacks x ≡ put s false w.memory.stacks x

-- The process sleeps until a child exits, and the processor is with another one.
pub record Sleeps (w w' : World) : Type 0 where
  pub state : (w'.kernel.procs w.kernel.current).state ≡ proc_sleeping
  pub wait_state : (w'.kernel.procs w.kernel.current).wait_state ≡ wt_child
  pub kernel : IsValid w'.kernel
  pub elsewhere : w'.kernel.current ≢ w.kernel.current
  pub runs :
      (w'.kernel.current ≡ idleproc) ⊎ (is_runnable (w.kernel.procs w'.kernel.current).state ≡ true)
  pub links : w'.links ≡ w.links

-- What a wait for any child has to do.
abbrev pub WaitEnds : (ℕ → List ℕ) → World → Option ℕ → World × Waited → Type 0
WaitEnds children w (some p) (w', r) = (r ≡ reaped (w.tasks p).exit_code) × Reaped children p w w'
WaitEnds children w none (w', r) =
    ((children w.kernel.current ≡ []) × (w' ≡ w) × (r ≡ refused e_bad_proc))
    ⊎ ((children w.kernel.current ≢ []) × (r ≡ asleep) × Sleeps w w')

find_kid-any :
    {children : ℕ → List ℕ} (w : World)
    → Represents children w.links
    → find_kid (length (children w.kernel.current)) 0 w
      ≡ some
          (has_any (children w.kernel.current), first_zombie w.kernel (children w.kernel.current))
unfolding find_kid
find_kid-any w v = find_zombie-youngest w.links w.kernel w.kernel.current v

put_kstack-none : (p : ℕ) (w : World) → (w.tasks p).kstack ≡ none → put_kstack p w ≡ w
unfolding put_kstack
put_kstack-none p w e = rw (put_kstack, e) refl

put_kstack-rest :
    (p : ℕ) (w : World)
    → ((put_kstack p w).links ≡ w.links)
      × ((put_kstack p w).hash_list ≡ w.hash_list)
      × ((put_kstack p w).kernel ≡ w.kernel)
      × ((put_kstack p w).memory.procs ≡ w.memory.procs)
      × ((s : ℕ)
          → (w.tasks p).kstack ≡ some s
          → (put_kstack p w).memory.stacks ≡ put s false w.memory.stacks)
put_kstack-rest p w = elim (Option-cases (w.tasks p).kstack) [
  | inl e ↦
      rw (put_kstack-none p w e) (refl, refl, refl, refl, λ s e'. absurd (ground (arith, e, e')))
  | inr (s, e) ↦
      rw (put_kstack-run p s w e) (refl, refl, refl, refl, λ t e'. same s t w (cc (e, e')))
]
  where
    same : (s t : ℕ) (w : World) → s ≡ t → put s false w.memory.stacks ≡ put t false w.memory.stacks
    same s t w e = rw e refl

unhash_proc-kernel : (p : ℕ) (w : World) → (unhash_proc p w).kernel ≡ w.kernel
unfolding unhash_proc
unhash_proc-kernel p w = refl

unhashed-Dropped :
    (p : ℕ) (w : World)
    → Dropped p
        (w.hash_list (pid_hashfn (w.tasks p).pid))
        ((unlinked p w).hash_list (pid_hashfn (w.tasks p).pid))
unfolding unhash_proc
unhashed-Dropped p w q =
    let b = pid_hashfn (w.tasks p).pid in
    let here : (b == b) ≡ true = ground arith in rw here (list_del-Dropped p (w.hash_list b) q)

unhashed_other :
    (p : ℕ) (w : World) (b : ℕ)
    → b ≢ pid_hashfn (w.tasks p).pid
    → (unlinked p w).hash_list b ≡ w.hash_list b
unfolding unhash_proc
unhashed_other p w b ne =
    let other : (b == pid_hashfn (w.tasks p).pid) ≡ false = ground arith in rw other refl

unlinked-Dropped : (p : ℕ) (w : World) → Dropped p w.links.proc_list (unlinked p w).links.proc_list
unfolding unhash_proc remove_links
unlinked-Dropped p w = unlist-Dropped p w.links.proc_list

unlinked_count : (p : ℕ) (w : World) → (unlinked p w).links.nr_process ≡ w.links.nr_process - 1
unfolding unhash_proc remove_links
unlinked_count p w = refl

removed :
    {children : ℕ → List ℕ} (p : ℕ) (w : World)
    → Represents children w.links
    → member p (children w.kernel.current) ≡ true
    → Represents
        (put_children children w.kernel.current (unlink p (children w.kernel.current)))
        (unlinked p w).links
unfolding unhash_proc
removed p w v m = remove_links-Represents w.links w.kernel.current p v m

reap-Reaped :
    {children : ℕ → List ℕ} (p : ℕ) (w : World)
    → Represents children w.links
    → member p (children w.kernel.current) ≡ true
    → p ≢ idleproc
    → p ≢ initproc
    → (r : World × Waited) × (reap p w ≡ done r) × WaitEnds children w (some p) r
unfolding reap unhash_proc
reap-Reaped {children} p w v m busy root =
    let test : ((p == idleproc) || (p == initproc)) ≡ false = ground arith in
    let (links, hash_list, kernel, procs, stacks) = put_kstack-rest p (unlinked p w) in
    (
      (free_proc p (put_kstack p (unlinked p w)), reaped (w.tasks p).exit_code),
      rw (reap, test) refl,
      (
        refl,
        record {
          links = rw (links) (removed p w v m);
          hashed = λ q.
              ap (λ f. count q (f (pid_hashfn (w.tasks p).pid))) hash_list ∙ unhashed-Dropped p w q;
          unhashed = λ b ne. ap (λ f. f b) hash_list ∙ unhashed_other p w b ne;
          listed = λ q. ap (λ (l : Links). count q l.proc_list) links ∙ unlinked-Dropped p w q;
          nr_process = ap (λ (l : Links). l.nr_process) links ∙ unlinked_count p w;
          kernel = kernel ∙ unhash_proc-kernel p w;
          procs = λ x. ap (λ f. put p false f x) procs;
          stacks = λ s e x. ap (λ f. f x) (stacks s e);
        },
      ),
    )

sleep_for_child-Sleeps :
    (pick_next : List ℕ → Option ℕ) (w : World)
    → Picks pick_next
    → IsValid w.kernel
    → w.kernel.current ≢ idleproc
    → Sleeps w (sleep_for_child pick_next w)
unfolding sleep_for_child
sleep_for_child-Sleeps pick_next w picks v busy =
    let k =
      put_proc w.kernel.current
        (record (w.kernel.procs w.kernel.current) { state = proc_sleeping; wait_state = wt_child })
        w.kernel in
    let like = schedule-Like pick_next k w.kernel.current in
    let (valid, next) = schedule-IsValid pick_next picks (sleeping-IsValid w.kernel v) in
    record {
      state = like.0 ∙ ground arith;
      wait_state = like.1 ∙ ground arith;
      kernel = valid;
      elsewhere = λ same. elim next [
        | inl (idle, none_left) ↦ busy (sym same ∙ idle)
        | inr (other, runs) ↦
            let back = ap (λ q. is_runnable (k.procs q).state) same in
            absurd (ground (arith, back, runs))
      ];
      runs = elim next [
        | inl (idle, none_left) ↦ inl idle
        | inr (other, runs) ↦ inr (
            awake w.kernel.current (schedule pick_next k).current
              (record (w.kernel.procs w.kernel.current) {
                state = proc_sleeping;
                wait_state = wt_child;
              })
              refl runs)
      ];
      links = refl;
    }
  where
    awake :
        (p q : ℕ) (c : Proc)
        → is_runnable c.state ≡ false
        → is_runnable ((put_proc p c w.kernel).procs q).state ≡ true
        → is_runnable (w.kernel.procs q).state ≡ true
    awake p q c stopped h = ground (arith, stopped, h)

-- What a round does once it knows of the children.
abbrev act : (List ℕ → Option ℕ) → World → Bool → Option ℕ → Outcome (World × Waited)
act pick_next w haskid (some p) = reap p w
act pick_next w true none = done (sleep_for_child pick_next w, asleep)
act pick_next w false none = done (w, refused e_bad_proc)

round-run :
    (fuel : ℕ) (pick_next : List ℕ → Option ℕ) (w : World) (haskid : Bool) (found : Option ℕ)
    → find_kid fuel 0 w ≡ some (haskid, found)
    → do_wait fuel pick_next 0 none w ≡ act pick_next w haskid found
unfolding do_wait
round-run fuel pick_next w true none e = rw (do_wait, wait_round, e) refl
round-run fuel pick_next w false none e = rw (do_wait, wait_round, e) refl
round-run fuel pick_next w haskid (some p) e = rw (do_wait, wait_round, e) refl

-- Where the pointers represent lists of children, the run queue is right, the idle process is not
-- the caller and nobody's child, and initproc is not a child of the caller, a wait for any child ends
-- after at most one round per child. It reaps the youngest zombie child if there is one: the child
-- is gone from its parent's children, the list of all processes and the hash list of its number, its
-- stack and descriptor are free, and its exit code is returned. It fails with -E_BAD_PROC just when
-- the process has no child. Otherwise the process sleeps for a child, and another process that can
-- run, or the idle process, has the processor.
pub do_wait-WaitEnds :
    {children : ℕ → List ℕ} (pick_next : List ℕ → Option ℕ) (w : World)
    → Picks pick_next
    → Represents children w.links
    → IsValid w.kernel
    → w.kernel.current ≢ idleproc
    → ((q : ℕ) → member idleproc (children q) ≡ false)
    → member initproc (children w.kernel.current) ≡ false
    → (r : World × Waited) × (do_wait (length (children w.kernel.current)) pick_next 0 none w
        ≡ done r)
      × WaitEnds children w (first_zombie w.kernel (children w.kernel.current)) r
unfolding do_wait
do_wait-WaitEnds {children} pick_next w picks v ready busy no_idle no_root =
    let (r, run, waits) = settle (has_any cs) (first_zombie w.kernel cs) refl refl in
    (
      r,
      round-run (length cs) pick_next w (has_any cs) (first_zombie w.kernel cs) (find_kid-any w v)
          ∙ run,
      waits,
    )
  where
    cs : List ℕ
    cs = children w.kernel.current

    has_any-empty : (ds : List ℕ) → has_any ds ≡ false → ds ≡ []
    has_any-empty [] h = refl
    has_any-empty (d ∷ ds) h = absurd (ground (arith, h))

    has_any-some : (ds : List ℕ) → has_any ds ≡ true → ds ≢ []
    has_any-some ds h e = let never = rw e at h in absurd (ground (arith, never))

    settle :
        (haskid : Bool) (found : Option ℕ)
        → has_any cs ≡ haskid
        → first_zombie w.kernel cs ≡ found
        → (r : World × Waited) × (act pick_next w haskid found ≡ done r)
          × WaitEnds children w found r
    settle haskid (some p) e dead =
        let m = first_zombie-member w.kernel p cs dead in
        reap-Reaped p w v m (member_ne p idleproc cs m (no_idle w.kernel.current))
          (member_ne p initproc cs m no_root)
    settle true none e dead = (
      (sleep_for_child pick_next w, asleep),
      refl,
      inr (has_any-some cs e, refl, sleep_for_child-Sleeps pick_next w picks ready busy),
    )
    settle false none e dead = ((w, refused e_bad_proc), refl, inl (has_any-empty cs e, refl, refl))
