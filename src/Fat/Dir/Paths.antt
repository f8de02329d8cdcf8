-- ===== src/Fat/Dir/Paths.antt =====
-- `using dit = coh_dit<FAT::FAT_dir_iterator>` of drivers/fat/fat.hh: the FAT directory iterator under the
-- wrapper of kernel/fs. The state that the wrapper sees has the position of the file handler beside the
-- iterator.
use mathlib.Core.Path.{subst}
use os_projet.Common.{
  ◌^◌, ℕ, zero, suc, ◌-◌, ◌<◌, ◌≡◌, ◌≢◌, refl, ap, sym, ◌∙◌, Bool, true, false, List, [], ◌∷◌,
  length, map, arith, inl, inr, get_or, get_elem?, some, ltb,
}
use os_projet.Cstring.Memory.{Bytes}
use os_projet.Fat.Disk.{Disk}
use os_projet.Fat.Table.{FatFileSystem}
use os_projet.Fat.File.{File}
use os_projet.Fs.{
  Status, dir_entry, file_entry, link_entry, underrun, np, ok, failed, out_of_fuel, bind, Settles,
  Settles-map,
}
use os_projet.Fs.Coherent.{RawIterator, feed_all, get_canonical_path}
use os_projet.Fs.Coherent.Refines.{
  IsPathStack, Names, entered, AreTexts, Leads, feed_all-Leads, get_canonical_path-print, print,
  resolve,
}
use os_projet.Fat.Dir.{DirError, not_found, empty_directory}
use os_projet.Fat.Dir.Iterator.{
  DirIterator, DirResult, Level, push, pop, depth, name_at, open_file, path, current_cluster,
}
use os_projet.Fat.Dir.Listing.{list}
use os_projet.Fat.Dir.Stack.{IsIterator, PushedOn, push-PushedOn}
use os_projet.Fat.Dir.Ends.{ChainEnds}

abbrev is_empty : DirError → Bool
is_empty empty_directory = true
is_empty _ = false

module _ (f : ℕ) (s : FatFileSystem) (junk : ℕ → Bytes) where
  unfoldable pub raw_iterator : RawIterator DirError (DirIterator × Disk) File
  raw_iterator = record {
    push = λ str st. bind (push f s junk st.0 str st.1) (λ r. ok (r.0, (r.1, r.2)));
    pop = λ st. bind (pop s st.0) (λ it. ok (it, st.1));
    depth = λ st. depth st.0;
    name_at = λ st i. name_at st.0 i;
    open_file = λ str st. bind (open_file f s junk st.0 str st.1) (λ r. ok (r.0, (st.0, r.1)));
    list = λ st. list f s junk st.0 st.1;
    is_empty_directory = is_empty;
    enoent = not_found;
  }

-- The stack keeps its laws, whatever the position of the handler is, on a disk with the bytes m.
abbrev pub IsAt : FatFileSystem → Bytes → DirIterator × Disk → Type 0
IsAt s m st = IsIterator s (st.0) × ((st.1).bytes ≡ m)

abbrev pub path_at : DirIterator × Disk → Names
path_at st = path (st.0)

-- Every chain of clusters that an iterator can start on ends within f steps.
abbrev pub AllEnd : ℕ → FatFileSystem → Bytes → Type 0
AllEnd f s m = (c : ℕ) → c < 2 ^ 16 → ChainEnds f s m c

pop_path :
    (s : FatFileSystem) (it : DirIterator) (n : List ℕ) (p : Names)
    → IsIterator s it
    → (ls : List Level) → it.stack ≡ ls
    → map (λ (l : Level). l.full_name) ls ≡ n ∷ p
    → (it' : DirIterator) × (pop s it ≡ ok it') × IsIterator s it' × (path it' ≡ p)
unfolding pop depth
pop_path s it n p h [] e e' = absurd (cons_not_nil e')
  where
    cons_not_nil : {n : List ℕ} → {p : Names} → [] ≡ n ∷ p → ⊥
    cons_not_nil e = cc
pop_path s it n p h (l ∷ ls) e e' = (
  record it { stack = ls; first_cluster_here = current_cluster s ls },
  rw e refl,
  record { fits = omega (arith, h.fits, ap length e); here = refl },
  cc,
)

get_elem?-map :
    (ls : List Level) (k : ℕ)
    → k < length ls
    → (l : Level) × (get_elem? ls k ≡ some l)
      × (l.full_name ≡ get_or (map (λ (l : Level). l.full_name) ls) k [])
get_elem?-map [] k h = absurd (omega arith)
get_elem?-map (l ∷ ls) zero h = (l, refl, refl)
get_elem?-map (l ∷ ls) (suc k) h = get_elem?-map ls k (omega arith)

length_names : (ls : List Level) → length (map (λ (l : Level). l.full_name) ls) ≡ length ls
length_names [] = refl
length_names (l ∷ ls) = ap suc (length_names ls)

name_path :
    (it : DirIterator) (i : ℕ)
    → i < length (path it)
    → name_at it i ≡ ok (get_or (path it) (length (path it) - 1 - i) [])
unfolding name_at
name_path it i h =
    let e = length_names it.stack in
    let (l, e1, e2) = get_elem?-map it.stack (length it.stack - 1 - i) (omega (arith, e)) in
    let inside : ltb i (length it.stack) ≡ true = ground (arith, e) in rw (inside, e, e1, e2) refl

pushed_path :
    (s : FatFileSystem) (it : DirIterator) (str : List ℕ) (m : Bytes)
    (r : DirResult (Status × DirIterator × Disk))
    → Settles (PushedOn s it str m) r
    → Settles
        (λ (r : Status × (DirIterator × Disk)).
          IsAt s m (r.1) × (path_at (r.1) ≡ entered r.0 str (path it)))
        (bind {E = DirError} {B = Status × (DirIterator × Disk)} r (λ r. ok (r.0, (r.1, r.2))))
pushed_path s it str m (ok (status, it', d))
      ((h, inl (e, grown, on_top, longer, back)), same_bytes) =
    ((h, same_bytes), rw e longer)
pushed_path s it str m (ok (status, it', d)) ((h, inr (ne, same)), same_bytes) =
    ((h, same_bytes), same_path status ne same)
  where
    same_path :
        (status : Status) → status ≢ dir_entry → it' ≡ it → path it' ≡ entered status str (path it)
    same_path dir_entry ne same = absurd (ne refl)
    same_path file_entry ne same = ap path same
    same_path link_entry ne same = ap path same
    same_path underrun ne same = ap path same
    same_path np ne same = ap path same
pushed_path s it str m (failed e) u = tt
pushed_path s it str m out_of_fuel u = u

cluster_small :
    (s : FatFileSystem) (it : DirIterator) → IsIterator s it → it.first_cluster_here < 2 ^ 16
unfolding current_cluster
cluster_small s it h = go it.stack h.here
  where
    go :
        (ls : List Level)
        → it.first_cluster_here ≡ current_cluster s ls
        → it.first_cluster_here < 2 ^ 16
    go [] e = omega (arith, e)
    go (l ∷ ls) e = omega (arith, e)

-- The FAT iterator is what the wrapper relies on: a stack of names.
pub raw_iterator-IsPathStack :
    (f : ℕ) (s : FatFileSystem) (junk : ℕ → Bytes) (m : Bytes)
    → AllEnd f s m
    → IsPathStack (raw_iterator f s junk) (IsAt s m) path_at
unfolding raw_iterator depth
raw_iterator-IsPathStack f s junk m ends = record {
  depth_law = λ st h. sym (length_names (st.0).stack);
  pop_law = λ st n p h e.
      let (it', popped, h', e') = pop_path s st.0 n p h.0 (st.0).stack refl e in
      ((it', st.1), rw popped refl, (h', h.1), e');
  push_law = λ str st h.
      let (w, same_bytes) = h in
      let chain : ChainEnds f s (st.1).bytes (st.0).first_cluster_here =
        rw same_bytes (ends (st.0).first_cluster_here (cluster_small s st.0 w)) in
      pushed_path s st.0 str m (push f s junk st.0 str st.1) (
        subst (λ m. Settles (PushedOn s st.0 str m) (push f s junk st.0 str st.1)) same_bytes
          (push-PushedOn f s junk st.0 str st.1 w (λ e. chain)));
  name_law = λ st i h lt. name_path st.0 i lt;
}

-- The path that names lead to, as the wrapper prints it.
abbrev pub Prints :
    ℕ → FatFileSystem → (ℕ → Bytes) → Names → Names → Status × (DirIterator × Disk) → Type 0
Prints f s junk names p r =
    r.0 ≡ dir_entry → get_canonical_path (raw_iterator f s junk) r.1 ≡ ok (print (resolve names p))

-- On a FAT file system where every chain of clusters that can be walked ends within the fuel, from an iterator
-- whose stack fits its size and which stands in the directory on top: names without a zero byte, given
-- to the wrapped iterator one after the other, do not run out of fuel; and where nothing is thrown and
-- each is answered with DIR_ENTRY, the canonical path is the old path followed by the names, where each `..`
-- has taken back a name and each `.` nothing, from the root and with a slash behind each name.
pub dit-Prints :
    (f : ℕ) (s : FatFileSystem) (junk : ℕ → Bytes) (names : Names) (it : DirIterator) (d : Disk)
    → IsIterator s it
    → AllEnd f s d.bytes
    → AreTexts names
    → Settles (Prints f s junk names (path it)) (feed_all (raw_iterator f s junk) names (it, d))
dit-Prints f s junk names it d h ends t =
    let law = raw_iterator-IsPathStack f s junk d.bytes ends in
    Settles-map (Leads law names (path it)) (Prints f s junk names (path it))
      (feed_all (raw_iterator f s junk) names (it, d))
      (λ r (inv, leads) e. get_canonical_path-print law r.1 inv ∙ ap ok (ap print (leads e)))
      (feed_all-Leads law names (it, d) (h, refl) t)
