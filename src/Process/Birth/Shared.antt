-- ===== src/Process/Birth/Shared.antt =====
-- The open files of a new process: what `newproc` of uzi-nes-port/kernel/process.c does to their counts of
-- references.
use uzi_build.Prelude.{
  ℕ, zero, suc, ◌+◌, ◌*◌, ◌%◌, ◌≡◌, ◌≢◌, ◌<◌, refl, sym, ap, ◌∙◌, inl, inr, false, List, [], ◌∷◌,
  none, some, arith, ◌==◌, if◌then◌else◌, get_elem?, set, get_elem?-set_self, get_elem?-set_ne,
  add8, Bool-cases, Option-cases,
}
use uzi_build.Kernel.{Kernel, Oft, PTab, Cinode, wild}
use uzi_build.Kernel.Returns
use uzi_build.Kernel.Returns.{Returns}
use uzi_build.Inode.Table.{itabsize, i_ref, put_inode}
use uzi_build.Files.Table.{put_oft}
use uzi_build.Files.Calls.{put_udata}
use uzi_build.Process.{p_running, child}
use uzi_build.Process.Birth.{share_files, newproc, inherited, put_slot}

-- How many of the descriptors name entry `j`.
abbrev pub occurrences : ℕ → List ℕ → ℕ
occurrences j [] = 0
occurrences j (f ∷ fs) = if f == j then suc (occurrences j fs) else occurrences j fs

-- Every descriptor names an entry of the table.
abbrev pub AllFiles : List Oft → List ℕ → Type 0
AllFiles tab [] = Unit {0}
AllFiles tab (f ∷ fs) = ((o : Oft) × (get_elem? tab f ≡ some o)) × AllFiles tab fs

-- An entry after `n` more references.
abbrev pub shared : ℕ → Oft → Oft
shared n o = record o { o_refs = (o.o_refs + n) % 256 }

AllFiles-set :
    (tab : List Oft) (j : ℕ) (o v : Oft) (fs : List ℕ)
    → get_elem? tab j ≡ some o
    → AllFiles tab fs
    → AllFiles (set tab j v) fs
AllFiles-set tab j o v [] h a = tt
AllFiles-set tab j o v (f ∷ fs) h ((x, at), a) = elim (Bool-cases (j == f)) [
  | inl e ↦
      let same : j ≡ f = ground arith in
      ((v, rw (sym same) (get_elem?-set_self tab j o v h)), AllFiles-set tab j o v fs h a)
  | inr e ↦
      let ne : j ≢ f = ground arith in
      ((x, get_elem?-set_ne tab j f v ne ∙ at), AllFiles-set tab j o v fs h a)
]

-- When every descriptor names an entry of the table, `share_files` comes back with each entry's count
-- raised, in 8 bits, by the number of descriptors that name it.
pub share_files-counts :
    (fs : List ℕ) (k : Kernel)
    → AllFiles k.of_tab fs
    → Returns (share_files fs k) (λ r k'.
      (k' ≡ record k { of_tab = k'.of_tab })
      × ((j : ℕ) (o : Oft)
          → get_elem? k.of_tab j ≡ some o
          → o.o_refs < 256
          → get_elem? k'.of_tab j ≡ some (shared (occurrences j fs) o)))
unfolding share_files
share_files-counts [] k a = record {
  value = tt;
  state = k;
  result = refl;
  post =
      (refl, λ j o h small. let e : (o.o_refs + 0) % 256 ≡ o.o_refs = omega arith in h ∙ rw e refl);
}
share_files-counts (f ∷ fs) k ((o, at), a) =
    let o' = record o { o_refs = add8 o.o_refs 1 } in
    let k₁ = put_oft f o' k in
    rw at (
      Returns.weaken (share_files-counts fs k₁ (AllFiles-set k.of_tab f o o' fs at a))
        λ r k' (same, counts). (
          rw same refl,
          λ j x h small. elim (Bool-cases (f == j)) [
            | inl e ↦
                let z : f ≡ j = ground arith in
                let at' : get_elem? k.of_tab j ≡ some o = rw (sym z) at in
                let is : x ≡ o = cc in
                let there : get_elem? (set k.of_tab f o') j ≡ some o' =
                  rw (sym z) (get_elem?-set_self k.of_tab f o o' at) in
                let sum : (o.o_refs + suc (occurrences j fs)) % 256
                    ≡ (add8 o.o_refs 1 + occurrences j fs) % 256 =
                  omega arith in
                rw (e, is, sum) (counts j o' there (omega arith))
            | inr e ↦
                let ne : f ≢ j = ground arith in
                rw e (counts j x (get_elem?-set_ne k.of_tab f j o' ne ∙ h) small)
          ],
        ))

-- The state in which `newproc` comes to the descriptors.
abbrev pub born : ℕ → Kernel → PTab → PTab → Cinode → Kernel
born p k e parent c =
    let u = k.udata in
    put_udata (record (inherited p u) { u_time = k.tod; u_cursig = 0; u_error = 0 })
      (put_inode u.u_cwd (record c { c_refs = add8 c.c_refs 1 })
        (put_slot p (child p u.u_ptab parent e) k))

newproc_files :
    (k : Kernel) (p : ℕ) (e parent : PTab) (c : Cinode)
    → get_elem? k.ptab p ≡ some e
    → get_elem? k.ptab k.udata.u_ptab ≡ some parent
    → get_elem? k.i_tab k.udata.u_cwd ≡ some c
    → (add8 c.c_refs 1 == 2 * itabsize) ≡ false
    → newproc p k ≡ share_files k.udata.u_files (born p k e parent c)
unfolding newproc i_ref
newproc_files k p e parent c at self cwd few = rw (at, self, cwd, few) refl

-- From a process whose descriptors all name open files, with fewer than 39 references to its working
-- directory, `newproc` comes back: the entry of the child is running, has the 65 swap blocks of its
-- slot, the process as its parent, and its user and the signals it ignores, and is otherwise as it was;
-- the other entries are as they were; the directory has one reference more, and every open file as many
-- more as there are descriptors that name it. The user data is that of the process, but for the entry,
-- which is the child's, the four times, which are 0, the time of day, and no signal and no error.
pub newproc-shares :
    (k : Kernel) (p : ℕ) (e parent : PTab) (c : Cinode)
    → get_elem? k.ptab p ≡ some e
    → get_elem? k.ptab k.udata.u_ptab ≡ some parent
    → get_elem? k.i_tab k.udata.u_cwd ≡ some c
    → c.c_refs < 39
    → AllFiles k.of_tab k.udata.u_files
    → Returns (newproc p k) (λ r k'.
      (get_elem? k'.ptab p
        ≡ some (record e {
          p_swap = 65 * p + 1;
          p_status = p_running;
          p_pptr = some k.udata.u_ptab;
          p_ignored = parent.p_ignored;
          p_uid = parent.p_uid;
        }))
      × ((j : ℕ) → p ≢ j → get_elem? k'.ptab j ≡ get_elem? k.ptab j)
      × (get_elem? k'.i_tab k.udata.u_cwd ≡ some (record c { c_refs = c.c_refs + 1 }))
      × (k'.udata ≡ record (k.udata) {
        u_ptab = p;
        u_utime = record { t_time = 0; t_date = 0 };
        u_stime = record { t_time = 0; t_date = 0 };
        u_cutime = record { t_time = 0; t_date = 0 };
        u_cstime = record { t_time = 0; t_date = 0 };
        u_time = k.tod;
        u_cursig = 0;
        u_error = 0;
      })
      × ((j : ℕ) (o : Oft)
          → get_elem? k.of_tab j ≡ some o
          → o.o_refs < 256
          → get_elem? k'.of_tab j ≡ some (shared (occurrences j k.udata.u_files) o)))
newproc-shares k p e parent c at self cwd few files =
    let fine : (add8 c.c_refs 1 == 2 * itabsize) ≡ false = ground arith in
    let exact : add8 c.c_refs 1 ≡ c.c_refs + 1 = omega arith in
    rw (newproc_files k p e parent c at self cwd fine) (
      Returns.weaken (share_files-counts k.udata.u_files (born p k e parent c) files)
        λ r k' (same, counts). (
          rw same (get_elem?-set_self k.ptab p e (child p k.udata.u_ptab parent e) at)
              ∙ ap (λ n. some (record (child p k.udata.u_ptab parent e) { p_swap = n }))
                  {x = p * 65 + 1} {y = 65 * p + 1} (omega arith),
          λ j ne. rw same (get_elem?-set_ne k.ptab p j (child p k.udata.u_ptab parent e) ne),
          rw same (
              get_elem?-set_self k.i_tab k.udata.u_cwd c (record c { c_refs = add8 c.c_refs 1 }) cwd
              ∙ rw exact refl),
          rw same refl,
          counts,
        ))

get_elem?-set-none :
    (tab : List Oft) (i j : ℕ) (v : Oft) → get_elem? tab j ≡ none → get_elem? (set tab i v) j ≡ none
get_elem?-set-none [] i j v h = refl
get_elem?-set-none (x ∷ xs) zero zero v h = cc
get_elem?-set-none (x ∷ xs) zero (suc j) v h = h
get_elem?-set-none (x ∷ xs) (suc i) zero v h = cc
get_elem?-set-none (x ∷ xs) (suc i) (suc j) v h = get_elem?-set-none xs i j v h

share_files-wild :
    (fs : List ℕ) (k : Kernel) (d f : ℕ)
    → get_elem? fs d ≡ some f
    → get_elem? k.of_tab f ≡ none
    → share_files fs k ≡ wild
unfolding share_files
share_files-wild [] k d f h out = cc
share_files-wild (x ∷ fs) k zero f h out = let z : x ≡ f = cc in rw (z, out) refl
share_files-wild (x ∷ fs) k (suc d) f h out = elim (Option-cases (get_elem? k.of_tab x)) [
  | inl e ↦ rw e refl
  | inr (o, e) ↦
      let o' = record o { o_refs = add8 o.o_refs 1 } in
      rw e (share_files-wild fs (put_oft x o' k) d f h (get_elem?-set-none k.of_tab x f o' out))
]

-- A process with an unused descriptor cannot be copied: -1 is 255 in an unsigned character, and
-- `newproc` counts a reference there, outside the open file table.
pub newproc-unused :
    (k : Kernel) (p d : ℕ) (e parent : PTab) (c : Cinode)
    → get_elem? k.ptab p ≡ some e
    → get_elem? k.ptab k.udata.u_ptab ≡ some parent
    → get_elem? k.i_tab k.udata.u_cwd ≡ some c
    → c.c_refs < 39
    → get_elem? k.udata.u_files d ≡ some 255
    → get_elem? k.of_tab 255 ≡ none
    → newproc p k ≡ wild
newproc-unused k p d e parent c at self cwd few unused out =
    let fine : (add8 c.c_refs 1 == 2 * itabsize) ≡ false = ground arith in
    newproc_files k p e parent c at self cwd fine
    ∙ share_files-wild k.udata.u_files (born p k e parent c) d 255 unused out
