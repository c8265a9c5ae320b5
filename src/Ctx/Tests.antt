-- ===== src/Ctx/Tests.antt =====
-- Runs of lima_ctx.c at concrete inputs, over a table with room for one handle.
use lima_freebsd.Base.{
  times, ℕ, ◌+◌, ◌<◌, ◌≡◌, refl, List, [], ◌∷◌, Option, none, some, arith, false, ◌==◌,
  if◌then◌else◌, update, ebusy, Result, ok, err, success, done,
}
use lima_freebsd.Ctx.Handles.{Xa, XaLaws}
use lima_freebsd.Ctx.{Contexts, put, create, mgr_fini, finish, enter}
use lima_freebsd.Ctx.Refs.{Counted, minus}
use lima_freebsd.Ctx.Table.{Valid, CreatePost, create-Valid, put-Valid, mgr_fini-Valid}

abbrev slot_load : Option ℕ → ℕ → Option ℕ
slot_load t id = if id == 0 then t else none

abbrev slot_alloc : Option ℕ → ℕ → Result (ℕ × Option ℕ)
slot_alloc none c = ok (0, some c)
slot_alloc (some b) c = err ebusy

abbrev slot_erase : Option ℕ → ℕ → Option ℕ
slot_erase t id = if id == 0 then none else t

abbrev slot_values : Option ℕ → List ℕ
slot_values none = []
slot_values (some c) = c ∷ []

abbrev slot : Xa
slot = record {
  Table = Option ℕ;
  load = slot_load;
  alloc = slot_alloc;
  erase = slot_erase;
  values = slot_values;
}

slot_adds :
    (t t' : Option ℕ) (c id v : ℕ)
    → slot_alloc t c ≡ ok (id, t')
    → times v (slot_values t') ≡ (if c == v then 1 else 0) + times v (slot_values t)
unfolding times
slot_adds none t' c id v h = ground arith
slot_adds (some b) t' c id v h = ground arith

slot_finds : (t t' : Option ℕ) (c id : ℕ) → slot_alloc t c ≡ ok (id, t') → slot_load t' id ≡ some c
slot_finds none t' c id h = ground arith
slot_finds (some b) t' c id h = ground arith

slot_holds : (t : Option ℕ) (c id : ℕ) → slot_load t id ≡ some c → 0 < times c (slot_values t)
unfolding times
slot_holds none c id h = ground arith
slot_holds (some b) c id h = ground arith

slot_drops :
    (t : Option ℕ) (c id v : ℕ)
    → slot_load t id ≡ some c
    → times v (slot_values t) ≡ (if c == v then 1 else 0) + times v (slot_values (slot_erase t id))
unfolding times
slot_drops none c id v h = ground arith
slot_drops (some b) c id v h = ground arith

slot_keeps :
    (t : Option ℕ) (id v : ℕ)
    → slot_load t id ≡ none
    → times v (slot_values (slot_erase t id)) ≡ times v (slot_values t)
unfolding times
slot_keeps none id v h = ground arith
slot_keeps (some b) id v h = ground arith

slot-XaLaws : XaLaws slot
slot-XaLaws = record {
  alloc_adds = slot_adds;
  alloc_load = slot_finds;
  load_held = slot_holds;
  erase_drops = slot_drops;
  erase_absent = slot_keeps;
}

abbrev nothing : Contexts
nothing = record { refcnt = λ _. none; entity = λ _ _. false }

abbrev nobody : ℕ → ℕ
nobody _ = 0

nothing-Valid : Valid slot none nobody nothing
unfolding times
nothing-Valid = record { count_of = λ c. ground arith; entities = λ c p h. ground arith }

create-Valid_example :
    CreatePost slot none nobody
      (some 100)
      (ok 0)
      (some 100)
      (create slot (some 100) (λ _. success) none nothing).2
unfolding create finish enter
create-Valid_example =
    create-Valid slot (some 100) (λ _. success) none nobody nothing slot-XaLaws (λ c e. refl)
      nothing-Valid

abbrev one_context : Contexts
one_context = (create slot (some 100) (λ _. success) none nothing).2

one-Valid : Valid slot (some 100) nobody one_context
unfolding create finish enter
one-Valid = create-Valid_example.1

abbrev borrowed : Contexts
borrowed = record one_context { refcnt = update one_context.refcnt 100 (some 2) }

abbrev one_caller : ℕ → ℕ
one_caller c = if c == 100 then 1 else 0

borrowed-Valid : Valid slot (some 100) one_caller borrowed
unfolding times
borrowed-Valid = record {
  count_of = λ c. ground (arith, one-Valid.count_of c);
  entities = λ c p h. ground (arith, one-Valid.entities c p h);
}

put-Valid_example :
    (h' : Contexts) × (put 100 borrowed ≡ done h') × Valid slot (some 100) (minus 100 one_caller) h'
put-Valid_example = put-Valid slot (some 100) 100 one_caller borrowed (omega arith) borrowed-Valid

mgr_fini-Valid_example :
    (h' : Contexts) × (mgr_fini slot (some 100) borrowed ≡ done h') × Counted one_caller h'
mgr_fini-Valid_example = mgr_fini-Valid slot (some 100) one_caller borrowed borrowed-Valid
