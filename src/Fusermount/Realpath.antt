-- ===== src/Fusermount/Realpath.antt =====
-- realpath_parent, get_mnt_id and the choice of the mount point in main of src/fusermount/fusermount.c.
-- dirname, basename, realpath, readlink, malloc, strdup, fopen and sscanf are what they return.
use winfuse.Base.{
  ℕ, ◌+◌, ◌≤◌, ◌≡◌, ◌≢◌, ◌⊎◌, ◌∙◌, sym, refl, ap, inl, inr, arith, Bool, true, false, not, ◌&&◌,
  Option, none, some, List, [], ◌∷◌, ◌++◌, ◌==◌, ltb, if◌then◌else◌, length, Bool-cases,
}
use mathlib.Core.Bool.{true≢false}
use winfuse.Fusermount.Options.{text_eq}

abbrev pub path_max : ℕ
path_max = 4096

-- What readlink returns for a path: it is a link, it is none (EINVAL), or it fails otherwise.
pub data Readlink : Type 0 where
  is_link not_link link_fails : Readlink

abbrev is_not_link : Readlink → Bool
is_not_link not_link = true
is_not_link _ = false

-- What the system returns to realpath_parent: the three allocations, the last name of the path, the
-- resolved path of its directory, and what the joined path is.
pub record ParentCalls : Type 0 where
  pub copies : Bool
  pub memory : Bool
  pub leaf : List ℕ
  pub resolved : Option (List ℕ)
  pub readlink : List ℕ → Readlink

-- realpath_parent, from the resolved directory on.
unfoldable pub join_leaf : ParentCalls → Option (List ℕ) → Option (List ℕ)
join_leaf c none = none
join_leaf c (some dir) =
    let joined = dir ++ b'/' ∷ c.leaf in
    if ltb path_max (length dir + length c.leaf + 2)
    then none
    else if is_not_link (c.readlink joined)
    then some joined
    else none

-- realpath_parent.
unfoldable pub realpath_parent : ParentCalls → Option (List ℕ)
unfolding join_leaf
realpath_parent c =
    if not c.copies then none else if not c.memory then none else join_leaf c c.resolved

-- The mount point of main: to mount, the resolved path, and to unmount, that of realpath_parent, which
-- does not look at the mount point itself.
unfoldable pub mountpoint_of :
    (unmount : Bool) (realpath : Option (List ℕ)) → ParentCalls → Option (List ℕ)
mountpoint_of unmount realpath c = if not unmount then realpath else realpath_parent c

-- The loop of get_mnt_id over the lines of /proc/self/mountinfo: the id and the path of each, where
-- sscanf finds both. Ids are not negative.
unfoldable pub find_mnt : (mountpoint : List ℕ) → List (Option (ℕ × List ℕ)) → Option ℕ
find_mnt mountpoint [] = none
find_mnt mountpoint (none ∷ lines) = find_mnt mountpoint lines
find_mnt mountpoint (some (m, path) ∷ lines) =
    let rest = find_mnt mountpoint lines in if text_eq mountpoint path then some m else rest

-- get_mnt_id, of lines that can be opened.
unfoldable pub get_mnt_id :
    (lines : Option (List (Option (ℕ × List ℕ)))) (mountpoint : List ℕ) → Option ℕ
get_mnt_id none mountpoint = none
get_mnt_id (some lines) mountpoint = find_mnt mountpoint lines

-- The id that do_unmount goes on with.
unfoldable pub unmount_id : Option (List (Option (ℕ × List ℕ))) → Option (List ℕ) → Option ℕ
unmount_id lines none = none
unmount_id lines (some mountpoint) = get_mnt_id lines mountpoint

-- Resolved paths do not start with two slashes.
unfoldable pub is_resolved : List ℕ → Bool
is_resolved (x ∷ y ∷ t) = not (x == b'/' && y == b'/')
is_resolved _ = true

unfoldable pub all_resolved : List (Option (ℕ × List ℕ)) → Bool
unfolding is_resolved
all_resolved [] = true
all_resolved (none ∷ lines) = all_resolved lines
all_resolved (some (m, path) ∷ lines) = is_resolved path && all_resolved lines

double_slash :
    (leaf path : List ℕ) → is_resolved path ≡ true → text_eq (b'/' ∷ b'/' ∷ leaf) path ≡ false
unfolding is_resolved text_eq
double_slash leaf [] h = refl
double_slash leaf (x ∷ []) h = ground arith
double_slash leaf (x ∷ y ∷ t) h = ground (arith, h)

find_double_slash :
    (leaf : List ℕ) (lines : List (Option (ℕ × List ℕ)))
    → all_resolved lines ≡ true
    → find_mnt (b'/' ∷ b'/' ∷ leaf) lines ≡ none
unfolding find_mnt all_resolved
find_double_slash leaf [] h = refl
find_double_slash leaf (none ∷ lines) h = find_double_slash leaf lines h
find_double_slash leaf (some (m, path) ∷ lines) h =
    let rest = find_double_slash leaf lines (ground (arith, h)) in
    rw (double_slash leaf path (ground (arith, h))) rest

root_is : (dir : List ℕ) → text_eq dir (b'/' ∷ []) ≡ true → dir ≡ b'/' ∷ []
unfolding text_eq
root_is [] h = absurd (cc h)
root_is (x ∷ []) h = ap (λ z. z ∷ []) (ground (arith, h))
root_is (x ∷ y ∷ t) h = absurd (ground (arith, h))

realpath_parent-joins :
    (c : ParentCalls) (dir : List ℕ)
    → c.copies ≡ true
    → c.memory ≡ true
    → c.resolved ≡ some dir
    → length dir + length c.leaf + 2 ≤ path_max
    → c.readlink (dir ++ b'/' ∷ c.leaf) ≡ not_link
    → realpath_parent c ≡ some (dir ++ b'/' ∷ c.leaf)
unfolding realpath_parent join_leaf
realpath_parent-joins c dir copies memory resolved fits link =
    let short : ltb path_max (length dir + length c.leaf + 2) ≡ false = ground (arith, fits) in
    rw (copies, memory, resolved, short, link) refl

-- No line has the path.
abbrev pub IsUnlisted : List ℕ → List (Option (ℕ × List ℕ)) → Type 0
IsUnlisted path [] = Unit
IsUnlisted path (none ∷ lines) = IsUnlisted path lines
IsUnlisted path (some (m, other) ∷ lines) = (path ≢ other) × IsUnlisted path lines

-- The first line with the path has the id, or there is none.
pub data Lists (path : List ℕ) (lines : List (Option (ℕ × List ℕ))) : Option ℕ → Type 0 where
  lists_none : IsUnlisted path lines → Lists path lines none
  lists_one :
      (m : ℕ) (before after : List (Option (ℕ × List ℕ)))
      → lines ≡ before ++ some (m, path) ∷ after
      → IsUnlisted path before
      → Lists path lines (some m)

text_eq-eq : (xs ys : List ℕ) → text_eq xs ys ≡ true → xs ≡ ys
unfolding text_eq
text_eq-eq [] [] h = refl
text_eq-eq [] (y ∷ ys) h = absurd (cc h)
text_eq-eq (x ∷ xs) [] h = absurd (cc h)
text_eq-eq (x ∷ xs) (y ∷ ys) h =
    let same : x ≡ y = ground (arith, h) in
    rw same (ap (λ r. y ∷ r) (text_eq-eq xs ys (ground (arith, h))))

text_eq_refl : (xs : List ℕ) → text_eq xs xs ≡ true
unfolding text_eq
text_eq_refl [] = refl
text_eq_refl (x ∷ xs) = ground (arith, text_eq_refl xs)

text_eq-ne : (xs ys : List ℕ) → text_eq xs ys ≡ false → xs ≢ ys
text_eq-ne xs ys h e = true≢false (sym (text_eq_refl xs) ∙ ap (text_eq xs) e ∙ h)

skipped :
    {path : List ℕ} {lines : List (Option (ℕ × List ℕ))} {o : Option ℕ}
    → Lists path lines o
    → Lists path (none ∷ lines) o
skipped (lists_none n) = lists_none n
skipped (lists_one m before after e n) = lists_one m (none ∷ before) after (ap (λ r. none ∷ r) e) n

passed :
    {path : List ℕ} {lines : List (Option (ℕ × List ℕ))} {o : Option ℕ} (k : ℕ) (other : List ℕ)
    → path ≢ other
    → Lists path lines o
    → Lists path (some (k, other) ∷ lines) o
passed k other d (lists_none n) = lists_none (d, n)
passed k other d (lists_one m before after e n) =
    lists_one m (some (k, other) ∷ before) after (ap (λ r. some (k, other) ∷ r) e) (d, n)

pub find_mnt-Lists :
    (path : List ℕ) (lines : List (Option (ℕ × List ℕ))) → Lists path lines (find_mnt path lines)
unfolding find_mnt
find_mnt-Lists path [] = lists_none tt
find_mnt-Lists path (none ∷ lines) = skipped (find_mnt-Lists path lines)
find_mnt-Lists path (some (m, other) ∷ lines) = elim (Bool-cases (text_eq path other)) [
  | inl e ↦
      rw e (lists_one m [] lines (ap (λ p. some (m, p) ∷ lines) (sym (text_eq-eq path other e))) tt)
  | inr e ↦ rw e (passed m other (text_eq-ne path other e) (find_mnt-Lists path lines))
]

-- Where every line has a resolved path, memory is given, the directory of the mount point resolves to
-- `dir`, and its path with the last name fits and is no link: where the directory is the root, do_unmount
-- finds no Linux mount, and elsewhere it finds that of the first line with just the path of the
-- directory, a slash and the name, if there is such a line.
pub unmount_id-finds :
    (c : ParentCalls) (dir : List ℕ) (lines : List (Option (ℕ × List ℕ)))
    (realpath : Option (List ℕ))
    → c.copies ≡ true
    → c.memory ≡ true
    → c.resolved ≡ some dir
    → length dir + length c.leaf + 2 ≤ path_max
    → c.readlink (dir ++ b'/' ∷ c.leaf) ≡ not_link
    → all_resolved lines ≡ true
    → let found = unmount_id (some lines) (mountpoint_of true realpath c) in
      Lists (dir ++ b'/' ∷ c.leaf) lines found × ((dir ≢ b'/' ∷ []) ⊎ (found ≡ none))
unfolding unmount_id mountpoint_of get_mnt_id
unmount_id-finds c dir lines realpath copies memory resolved fits link listed =
    rw (realpath_parent-joins c dir copies memory resolved fits link) (
      find_mnt-Lists (dir ++ b'/' ∷ c.leaf) lines,
      elim (Bool-cases (text_eq dir (b'/' ∷ []))) [
        | inl e ↦ inr (rw (root_is dir e) (find_double_slash c.leaf lines listed))
        | inr e ↦ inl (text_eq-ne dir (b'/' ∷ []) e)
      ],
    )
