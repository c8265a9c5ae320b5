-- ===== src/Vm/Space/Round.antt =====
-- A buffer mapped by lima_vm_bo_add and released by lima_vm_bo_del: the round trip of the calls.
use lima_freebsd.Base.{
  ℕ, ◌+◌, ◌*◌, ◌%◌, ◌<◌, ◌≤◌, ◌≡◌, sym, ◌∙◌, subst, none, some, arith, Bool, length, ok, success,
  done,
}
use lima_freebsd.Vm.Mm.{Mm, MmLaws}
use lima_freebsd.Vm.Table.{u32_mod, page_size, Dma}
use lima_freebsd.Vm.Space.{Bo, BoVa, Vm, bo_find, bo_add, bo_del, get_va}
use lima_freebsd.Vm.Space.Add.{IsClean, SameSpace, Added, AddPost, bo_add_lem}
use lima_freebsd.Vm.Space.Del.{populated, found_entry, bo_del_last}

done-inj {ℓ} : {A : Type ℓ} {x y : A} → done x ≡ done y → x ≡ y
done-inj h = cc

module _ (m : Mm) where
  -- What a call that returned `success` has done.
  bo_add-Added :
      (kzalloc create : Bool) (vm vm' : Vm m) (bo bo' : Bo) (d d' : Dma)
      → MmLaws m
      → IsClean m vm
      → bo_find vm.id bo.va ≡ none
      → bo.size % page_size ≡ 0
      → length bo.sgt * page_size ≤ bo.size
      → bo_add m kzalloc vm bo d create ≡ done (success, vm', bo', d')
      → Added m vm bo vm' bo'
  bo_add-Added kz create vm vm' bo bo' d d' laws clean f al fits run =
      let (r, vm1, bo1, d1, run1, post) = bo_add_lem m kz create vm bo d laws clean al fits in
      let e : (r, vm1, bo1, d1) ≡ (success, vm', bo', d') = done-inj (sym run1 ∙ run) in
      subst (λ p. AddPost m vm bo d none p.0 p.1 p.2 p.3) e
        (subst (λ o. AddPost m vm bo d o r vm1 bo1 d1) f post)

  answer :
      (vm : Vm m) (bo : Bo) (v : BoVa)
      → bo_find vm.id bo.va ≡ some v
      → get_va m vm bo ≡ done (v.start % u32_mod)
  unfolding get_va
  answer vm bo v f = rw (f, get_va)

  -- A buffer that the space did not hold, mapped by `lima_vm_bo_add` and released by
  -- `lima_vm_bo_del`, leaves the buffer and the allocator as they were, and every word of the tables
  -- reads as before; in between `lima_vm_get_va` answers the start of its range. The pages of the
  -- buffer fill the populated part of it, which must end before the last page of the 4 GiB.
  pub bo_del-bo_add_new :
      (kzalloc create : Bool) (vm vm' : Vm m) (bo bo' : Bo) (d d' : Dma) (start : ℕ)
      → MmLaws m
      → IsClean m vm
      → bo_find vm.id bo.va ≡ none
      → bo.size % page_size ≡ 0
      → length bo.sgt * page_size ≡ populated bo
      → 0 < populated bo
      → populated bo ≤ bo.size
      → bo_add m kzalloc vm bo d create ≡ done (success, vm', bo', d')
      → get_va m vm' bo' ≡ done start
      → start + populated bo < u32_mod
      → (m.insert vm.mm bo.size ≡ ok (start, vm'.mm))
        × (vm'' : Vm m) × (bo_del m vm' bo' ≡ done (vm'', bo))
        × SameSpace m vm vm''
  bo_del-bo_add_new kz create vm vm' bo bo' d d' start laws clean f al pop pos le run va top =
      let a =
        bo_add-Added kz create vm vm' bo bo' d d' laws clean f al (omega (arith, pop, le)) run in
      let (found, back, heap) = found_entry m vm vm' bo bo' f a in
      let low : a.start % u32_mod ≡ a.start =
        omega (arith, laws.insert_fits vm.mm vm'.mm bo.size a.start a.inserted, pos, le) in
      let at : start ≡ a.start = sym (done-inj (sym (answer vm' bo' _ found) ∙ va)) ∙ low in
      let (vm'', del, same) =
        bo_del_last m vm vm' bo bo' laws clean f al pop pos le a
          (subst (λ n. n + populated bo < u32_mod) at top) in
      (subst (λ n. m.insert vm.mm bo.size ≡ ok (n, vm'.mm)) (sym at) a.inserted, vm'', del, same)
