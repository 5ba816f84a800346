-- ===== src/Fuseop/Listed.antt =====
-- What FuseOpQueryDirectory of src/shared/km/fuseop.c writes, and that its loop ends.
use winfuse.Base.{
  ℕ, zero, suc, ◌+◌, ◌≤◌, ◌≡◌, refl, inl, inr, arith, Bool, true, false, not, ◌&&◌, ◌||◌, ◌==◌, ltb,
  if◌then◌else◌, Bool-cases, Option-cases,
}
use winfuse.Cache.{Rtl}
use winfuse.Cache.Gens.{reference_gen}
use winfuse.Path.{Memory, ushort}
use winfuse.Status.{
  nt_success, status_internal_error, status_insufficient_resources, status_object_name_not_found,
}
use winfuse.Fuseop.{State, Run, send, on_success, fail, cache_of, set_cache}
use winfuse.Fuseop.Always.{
  Always, at_end, at_copy, at_given, Always-bind, Always-resume, Always-on_success, Always-send,
  Always-map,
}
use winfuse.Fuseop.Bounds.{Within, read_within}
use winfuse.Fuseop.Change.{namelen, align_up8, dirent_name}
use winfuse.Fuseop.Directory.{
  Buffer, report, then_end, add_by_name, after_entry, add_bytes, add_end, add_dir_info,
  get_dir_info_by_name, entry_attr, read_directory_end, directory_round, directory_loop,
  entries_received, read_directory, op_query_directory,
}
use winfuse.Fuseop.Alike.{lookup-Alike}
use winfuse.Fuseop.Io.{rsp_header_size}
use winfuse.Fuseop.Lookup.{lookup, allocation}

-- The writes stay in the buffer, and a success reports no more bytes than it has.
abbrev pub Fits : ℕ → State → Type 0
Fits length s = nt_success s.status ≡ true → s.information ≤ length

abbrev Lists : Buffer → Run → Type 0
Lists b r = Always (Within b.address b.length) (Fits b.length) r

fails-Fits : (length : ℕ) (s : State) → nt_success s.status ≡ false → Fits length s
fails-Fits length s bad = λ ok. absurd (ground (arith, bad, ok))

module _ (b : Buffer) where
  failed-Lists : (status : ℕ) (s : State) → nt_success status ≡ false → Lists b (fail status s)
  failed-Lists status s bad = at_end (fails-Fits b.length (record s { status = status }) bad)

  if-Lists :
      {r t : Run} (c : Bool)
      → (c ≡ true → Lists b r)
      → (c ≡ false → Lists b t)
      → Lists b (if c then r else t)
  if-Lists true f g = f refl
  if-Lists false f g = g refl

  add_bytes-Lists :
      (bytes size aligned : ℕ) (s : State) (k : Bool → ℕ → State → Run)
      → size ≤ aligned
      → bytes ≤ b.length
      → ((added : Bool) (more : ℕ) (t : State) → more ≤ b.length → Lists b (k added more t))
      → Lists b (add_bytes b bytes size aligned s k)
  unfolding add_bytes
  add_bytes-Lists bytes size aligned s k small fits h =
      elim (Bool-cases (ltb b.length (bytes + aligned))) [
        | inl e ↦ rw e (h _ _ _ fits)
        | inr e ↦
            let room : bytes + aligned ≤ b.length = ground (arith, e) in
            rw e (
              at_copy (read_within (omega arith) (omega (arith, room, small))) (λ status.
                elim (Bool-cases (nt_success status)) [
                  | inl f ↦ rw f (h _ _ _ room)
                  | inr f ↦ rw f (h _ _ _ fits)
                ]))
      ]

  add_end-Lists :
      (bytes : ℕ) (s : State) (k : Bool → ℕ → State → Run)
      → bytes ≤ b.length
      → ((added : Bool) (more : ℕ) (t : State) → more ≤ b.length → Lists b (k added more t))
      → Lists b (add_end b bytes s k)
  unfolding add_end
  add_end-Lists bytes s k fits h = add_bytes-Lists bytes 2 2 s k (omega arith) fits h

  module _ (rtl : Rtl) (dir_info_size : ℕ) where
    add_dir_info-Lists :
        (bytes : ℕ) (s : State) (k : Bool → ℕ → State → Run)
        → bytes ≤ b.length
        → ((added : Bool) (more : ℕ) (t : State) → more ≤ b.length → Lists b (k added more t))
        → Lists b (add_dir_info rtl dir_info_size b bytes s k)
    unfolding add_dir_info
    add_dir_info-Lists bytes s k fits h = at_given (λ wide_status. at_given (λ wide_length.
        elim (Bool-cases (nt_success wide_status)) [
          | inl e ↦ rw e (add_bytes-Lists bytes _ _ s k (omega arith) fits h)
          | inr e ↦ rw e (h _ _ _ fits)
        ]))

    report-Lists :
        (bytes : ℕ) (t : State) → bytes ≤ b.length → Lists b (on_success (report bytes) t)
    report-Lists bytes t fits =
        Always-on_success t (report bytes) (λ _. at_end (λ _. fits)) (fails-Fits b.length t)

    then_end-Lists :
        (added : Bool) (bytes : ℕ) (s : State)
        → bytes ≤ b.length
        → Lists b (then_end rtl dir_info_size b added bytes s)
    then_end-Lists true bytes s fits =
        add_end-Lists bytes s (λ _ more t. on_success (report more) t) fits
          (λ _ more t. report-Lists more t)
    then_end-Lists false bytes s fits = report-Lists bytes s fits

    by_name-Lists : (s : State) → Lists b (get_dir_info_by_name rtl dir_info_size b s)
    unfolding get_dir_info_by_name add_by_name
    by_name-Lists s = at_given (λ path_status. at_given (λ path. at_given (λ path_length.
        elim (Bool-cases (nt_success path_status)) [
          | inr e ↦ rw e (at_end (fails-Fits b.length (record s { status = path_status }) e))
          | inl e ↦ rw e (
              Always-resume {P = λ t. Unit} (lookup rtl _) (add_by_name rtl dir_info_size b)
                (Always-map _ (λ c h. h) (λ t _. tt) (lookup-Alike rtl _)) (λ t _. looked t))
        ])))
      where
        looked : (t : State) → Lists b (add_by_name rtl dir_info_size b t)
        looked t = elim (Bool-cases (nt_success t.status)) [
          | inl e ↦
              rw e
                (add_dir_info-Lists 0 t (then_end rtl dir_info_size b) (omega arith) then_end-Lists)
          | inr e ↦ elim (Bool-cases (status_object_name_not_found == t.status)) [
            | inl f ↦ rw (e, f) (then_end-Lists true 0 t (omega arith))
            | inr f ↦ rw (e, f) (at_end (fails-Fits b.length t e))
          ]
        ]

    entry_attr-Any :
        (m : Memory) (p : ℕ) (s : State)
        → Always (Within b.address b.length) (λ t. Unit) (entry_attr rtl dir_info_size m p s)
    unfolding entry_attr
    entry_attr-Any m p s =
        let n = ushort (namelen m p) in
        elim (Bool-cases
          (1 == n && m (p + 24) == b'.' || 2 == n && (m (p + 24) == b'.' && m (p + 25) == b'.'))) [
            | inl e ↦ rw e (
                Always-bind {P = λ t. Unit} (send _ _) _ (Always-send _ _ (λ v a. tt))
                  (λ t _ _. at_end tt) (λ t _ _. tt))
            | inr e ↦ rw e (Always-map _ (λ c h. h) (λ t _. tt) (lookup-Alike rtl _))
          ]

    end-Lists :
        (p bytes : ℕ) (s : State)
        → bytes ≤ b.length
        → Lists b (read_directory_end rtl dir_info_size b p bytes s)
    unfolding read_directory_end
    end-Lists p bytes s fits = elim (Bool-cases (p == rsp_header_size)) [
      | inl e ↦ rw e (add_end-Lists bytes s (λ _. report) fits (λ added more t h. at_end (λ _. h)))
      | inr e ↦ rw e (at_end (λ _. fits))
    ]

    after-Lists :
        (again : ℕ → State → Run) (p : ℕ) (added : Bool) (more : ℕ) (s : State)
        → more ≤ b.length
        → ((more : ℕ) (t : State) → more ≤ b.length → Lists b (again more t))
        → Lists b (after_entry rtl dir_info_size again b p added more s)
    unfolding after_entry
    after-Lists again p added more s fits h = elim (Bool-cases (nt_success s.status)) [
      | inr e ↦ rw e (at_end (fails-Fits b.length s e))
      | inl e ↦ elim (Bool-cases added) [
        | inl f ↦ rw (e, f) (h more s fits)
        | inr f ↦ rw (e, f) (end-Lists p more s fits)
      ]
    ]

    round-Lists :
        (again : ℕ → State → Run) (m : Memory) (end_p p bytes : ℕ) (s : State)
        → bytes ≤ b.length
        → ((more : ℕ) (t : State) → more ≤ b.length → Lists b (again more t))
        → Lists b (directory_round rtl dir_info_size again b m end_p p bytes s)
    unfolding directory_round
    round-Lists again m end_p p bytes s fits h =
        elim (Bool-cases
          (ltb end_p (p + dirent_name) || ltb end_p (p + dirent_name + namelen m p))) [
            | inl e ↦ rw e (end-Lists p bytes s fits)
            | inr e ↦ rw e (
                Always-bind {P = λ t. Unit} (entry_attr rtl dir_info_size m p s) _
                  (entry_attr-Any m p s)
                  (λ t _ _.
                    add_dir_info-Lists bytes t (after_entry rtl dir_info_size again b p) fits
                      (λ added more u k. after-Lists again p added more u k h))
                  (λ t _ bad. fails-Fits b.length t bad))
          ]

    loop-Lists :
        (fuel : ℕ) (m : Memory) (end_p p bytes : ℕ) (s : State)
        → bytes ≤ b.length
        → Lists b (directory_loop rtl dir_info_size fuel b m end_p p bytes s)
    unfolding directory_loop
    loop-Lists zero m end_p p bytes s fits = end-Lists p bytes s fits
    loop-Lists (suc fuel) m end_p p bytes s fits =
        round-Lists
          (directory_loop rtl dir_info_size fuel b m end_p
            (p + align_up8 (dirent_name + namelen m p)))
          m end_p p bytes s fits
          (loop-Lists fuel m end_p (p + align_up8 (dirent_name + namelen m p)))

    entries_received-Lists :
        (length : ℕ) (t : State) → Lists b (entries_received rtl dir_info_size b length t)
    unfolding entries_received
    entries_received-Lists length t = at_given (λ buffer.
        if-Lists (not (nt_success t.status))
          (λ e. at_end (fails-Fits b.length t (ground (arith, e))))
          (λ _.
            if-Lists (ltb (rsp_header_size + length) t.response.len)
              (λ _. failed-Lists status_internal_error t refl)
              (λ _.
                if-Lists (ltb rsp_header_size t.response.len && buffer == 0)
                  (λ _. failed-Lists status_insufficient_resources t refl)
                  (λ _.
                    loop-Lists t.response.len t.response.content t.response.len rsp_header_size 0 t
                      (omega arith)))))

    read_directory-Lists :
        (marker : ℕ) (s : State) → Lists b (read_directory rtl dir_info_size b marker s)
    unfolding read_directory
    read_directory-Lists marker s =
        Always-resume {P = λ t. Unit} (send _ s) _ (Always-send _ s (λ v a. tt))
          (λ t _. entries_received-Lists _ t)

    -- Whatever user mode answers and whatever the system returns, FuseOpQueryDirectory writes only into
    -- the buffer of the caller, and where it succeeds, it reports no more bytes than the buffer has.
    pub op_query_directory-Lists :
        (by_name : Bool) (file marker : ℕ) (s : State)
        → Always
            (Within b.address b.length)
            (Fits b.length)
            (op_query_directory rtl dir_info_size b by_name file marker s)
    unfolding op_query_directory
    op_query_directory-Lists by_name file marker s = at_given (λ now. at_given (λ new.
        elim (Option-cases
          (reference_gen (cache_of (record s { file = file })) now (allocation new)).1) [
            | inl e ↦ rw e (
                failed-Lists status_insufficient_resources
                  (set_cache (record s { file = file })
                    (reference_gen (cache_of (record s { file = file })) now (allocation new)).0)
                  refl)
            | inr (gen, e) ↦ rw e (elim (Bool-cases by_name) [
              | inl f ↦ rw f (by_name-Lists _)
              | inr f ↦ rw f (read_directory-Lists marker _)
            ])
          ]))
