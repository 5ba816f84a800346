-- ===== src/Instance/Fini.antt =====
-- FuseInstanceFini of src/shared/km/instance.c: what the contexts of the queue, the files and the cache
-- hold of each other is given up before it is freed.
use winfuse.Base.{
  ℕ, ◌+◌, ◌^◌, ◌<◌, ◌≤◌, ◌≡◌, ◌∙◌, ap, refl, inl, inr, List, [], ◌∷◌, ◌++◌, arith, ◌&&◌, not, ◌==◌,
  if◌then◌else◌, count, erase, map, count-append, count-erase, Bool-cases,
}
use winfuse.Cache.{Cache}
use winfuse.Cache.Entries.{dereference_item}
use winfuse.Cache.Expiry.{cache_delete}
use winfuse.Cache.Gens.{dereference_gen}
use winfuse.Cache.History.{dereference_gen-IsValid}
use winfuse.Cache.Valid.{IsValid}
use winfuse.File.{Instance, file_delete, file_instance_fini}
use winfuse.File.History.{IsSound, delete, step-IsSound}
use winfuse.File.References.{
  file_instance_fini-IsValid, file_instance_fini-keeps, file_instance_fini-files,
}
use winfuse.Instance.{Held, Finalized, context_fini, file_of, delete_contexts, instance_fini}
use winfuse.Ioq.{Ioq, Effect, delete_context, clear_request_length, ioq_delete}

-- How many of the contexts that are deleted have a file, and how many have a generation.
unfoldable pub held_files : (ℕ → Held) → List Effect → ℕ → ℕ
held_files held [] f = 0
held_files held (clear_request_length c ∷ es) f = held_files held es f
held_files held (delete_context c ∷ es) f = count f (file_of (held c)) + held_files held es f

unfoldable pub held_gens : (ℕ → Held) → List Effect → ℕ → ℕ
held_gens held [] g = 0
held_gens held (clear_request_length c ∷ es) g = held_gens held es g
held_gens held (delete_context c ∷ es) g =
    (if (held c).gen == g && not (g == 0) then 1 else 0) + held_gens held es g

-- The generations of the cache are those that contexts have, each once, and count them.
pub record GensHeld (refs : ℕ → ℕ) (c : Cache) : Type 0 where
  pub listed : (g : ℕ) → count g c.gen_list ≡ (if refs g == 0 then 0 else 1)
  pub counted : (g : ℕ) → 0 < refs g → (c.gens g).ref_count ≡ refs g
  pub fits : (g : ℕ) → refs g < 2 ^ 32

dereference-GensHeld :
    (refs other : ℕ → ℕ) (c : Cache) (h : ℕ)
    → GensHeld refs c
    → ((g : ℕ) → refs g ≡ (if h == g && not (g == 0) then 1 else 0) + other g)
    → GensHeld other (dereference_gen c h)
unfolding dereference_gen count erase
dereference-GensHeld refs other c h k e = elim (Bool-cases (h == 0)) [
  | inl z ↦ rw z (record {
    listed = λ g. ground (arith, k.listed g, e g);
    counted = λ g p. ground (arith, k.counted g, e g);
    fits = λ g. ground (arith, k.fits g, e g);
  })
  | inr z ↦ rw z (record {
    listed = λ g.
        ground (arith, k.listed g, e g, e h, k.counted h, k.fits h, count-erase g h c.gen_list);
    counted = λ g p. ground (arith, k.counted g, e g, e h, k.counted h, k.fits h);
    fits = λ g. ground (arith, k.fits g, e g);
  })
]

item-GensHeld :
    (refs : ℕ → ℕ) (c : Cache) (x : ℕ) → GensHeld refs c → GensHeld refs (dereference_item c x)
unfolding dereference_item
item-GensHeld refs c x k = elim (Bool-cases (x == 0)) [
  | inl z ↦ rw z k
  | inr z ↦ rw z (record { listed = k.listed; counted = k.counted; fits = k.fits })
]

context_fini-IsSound :
    (h : Held) (i : Instance)
    → IsSound i
    → ((f : ℕ) → count f (file_of h) ≤ count f i.file_list)
    → IsSound (context_fini h i)
unfolding context_fini count
context_fini-IsSound h i s listed = elim (Bool-cases (h.file == 0)) [
  | inl z ↦ rw z (record { held = (dereference_gen-IsValid i.cache h.gen s.held).0; once = s.once })
  | inr z ↦
      let t = step-IsSound (delete i h.file (ground (arith, listed h.file))) s in
      rw z (record {
        held = (dereference_gen-IsValid (file_delete i h.file).cache h.gen t.held).0;
        once = t.once;
      })
]

context_fini-GensHeld :
    (refs other : ℕ → ℕ) (h : Held) (i : Instance)
    → GensHeld refs i.cache
    → ((g : ℕ) → refs g ≡ (if h.gen == g && not (g == 0) then 1 else 0) + other g)
    → GensHeld other (context_fini h i).cache
unfolding context_fini file_delete
context_fini-GensHeld refs other h i k e = elim (Bool-cases (h.file == 0)) [
  | inl z ↦ rw z (dereference-GensHeld refs other i.cache h.gen k e)
  | inr z ↦ rw z (
      dereference-GensHeld refs other _ h.gen
        (item-GensHeld refs i.cache (i.files h.file).cache_item k) e)
]

context_fini-files :
    (h : Held) (i : Instance) (f : ℕ)
    → count f (file_of h) ≤ count f i.file_list
    → count f (file_of h) + count f (context_fini h i).file_list ≡ count f i.file_list
unfolding context_fini file_delete count
context_fini-files h i f l = ground (arith, count-erase f h.file i.file_list)

-- What is left when the contexts are deleted, where their files are those of the instance, each at most
-- once, and their generations those of the cache.
record Deleted (files : List ℕ) (r : Instance × List ℕ) : Type 0 where
  sound : IsSound r.0
  freed : (f : ℕ) → count f r.1 + count f r.0.file_list ≡ count f files
  no_gens : GensHeld (λ _. 0) r.0.cache

delete_contexts-Deleted :
    (held : ℕ → Held) (es : List Effect) (i : Instance)
    → IsSound i
    → ((f : ℕ) → held_files held es f ≤ count f i.file_list)
    → GensHeld (held_gens held es) i.cache
    → Deleted i.file_list (delete_contexts held es i)
unfolding delete_contexts held_files held_gens count
delete_contexts-Deleted held [] i s l k = record {
  sound = s;
  freed = λ f. omega arith;
  no_gens = k;
}
delete_contexts-Deleted held (clear_request_length c ∷ es) i s l k =
    delete_contexts-Deleted held es i s l k
delete_contexts-Deleted held (delete_context c ∷ es) i s l k =
    let h = held c in
    let rest =
      delete_contexts-Deleted held es (context_fini h i)
        (context_fini-IsSound h i s (λ f. omega (arith, l f)))
        (λ f. omega (arith, l f, context_fini-files h i f (omega (arith, l f))))
        (context_fini-GensHeld _ _ h i k (λ g. refl)) in
    record {
      sound = rest.sound;
      freed = λ f. omega (
        arith,
        rest.freed f,
        l f,
        count-append f (file_of h) (delete_contexts held es (context_fini h i)).1,
        context_fini-files h i f (omega (arith, l f)),
      );
      no_gens = rest.no_gens;
    }

-- The contexts that effects delete.
unfoldable pub contexts_of : List Effect → List ℕ
contexts_of [] = []
contexts_of (clear_request_length c ∷ es) = contexts_of es
contexts_of (delete_context c ∷ es) = c ∷ contexts_of es

contexts-append :
    (l : List ℕ) (es : List Effect) → contexts_of (map delete_context l ++ es) ≡ l ++ contexts_of es
unfolding contexts_of
contexts-append [] es = refl
contexts-append (c ∷ l) es = ap (λ r. c ∷ r) (contexts-append l es)

contexts-map : (l : List ℕ) → contexts_of (map delete_context l) ≡ l
unfolding contexts_of
contexts-map [] = refl
contexts-map (c ∷ l) = ap (λ r. c ∷ r) (contexts-map l)

contexts-ioq_delete : (q : Ioq) → contexts_of (ioq_delete q) ≡ q.pending_list ++ q.process_list
unfolding ioq_delete
contexts-ioq_delete q =
    contexts-append q.pending_list (map delete_context q.process_list)
    ∙ ap (λ r. q.pending_list ++ r) (contexts-map q.process_list)

-- All memory is given back, once: the contexts of both lists, the files, and the generations and items
-- of a cache to which nothing refers.
pub record Frees (q : Ioq) (i : Instance) (r : Finalized) : Type 0 where
  pub contexts : contexts_of r.contexts ≡ q.pending_list ++ q.process_list
  pub files : (f : ℕ) → count f r.files ≡ count f i.file_list
  pub unused : IsValid (λ _. 0) r.cache
  pub no_gens : (g : ℕ) → count g r.cache.gen_list ≡ 0
  pub memory : (x : ℕ) → count x r.memory ≡ count x r.cache.item_list + count x r.cache.forget_list

-- Where the references on items are those of the files, each file is listed once and belongs to one
-- queued context at most, and the generations of the cache are those of queued contexts, which they
-- count: FuseInstanceFini frees each context of the queue, and each file, whether with its context or
-- after it, exactly once, and then a valid cache whose items no file refers to and whose generations
-- are all given up, with each of its items.
pub instance_fini-Frees :
    (held : ℕ → Held) (q : Ioq) (i : Instance)
    → IsSound i
    → ((f : ℕ) → held_files held (ioq_delete q) f ≤ count f i.file_list)
    → GensHeld (held_gens held (ioq_delete q)) i.cache
    → Frees q i (instance_fini held q i)
unfolding instance_fini cache_delete
instance_fini-Frees held q i s l k =
    let d = delete_contexts-Deleted held (ioq_delete q) i s l k in
    let j = (delete_contexts held (ioq_delete q) i).0 in
    let gone =
      file_instance_fini-keeps {P = GensHeld (λ _. 0)} j (item-GensHeld (λ _. 0)) d.no_gens in
    let c = (file_instance_fini j).0 in
    record {
      contexts = contexts-ioq_delete q;
      files = λ f. omega (
        arith,
        d.freed f,
        ap (count f) (file_instance_fini-files j),
        count-append f (delete_contexts held (ioq_delete q) i).1 (file_instance_fini j).1,
      );
      unused = file_instance_fini-IsValid j d.sound.held;
      no_gens = gone.listed;
      memory = λ x. omega (
        arith,
        gone.listed x,
        count-append x c.gen_list (c.item_list ++ c.forget_list),
        count-append x c.item_list c.forget_list,
      );
    }
