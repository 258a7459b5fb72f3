-- ===== src/Vm/Resize.antt =====
-- proc.c: `growproc` by every byte of a process.
use op_sys.Base.{
  ltb, ◌==◌, Option-cases, word, ℕ, ◌+◌, ◌-◌, ◌%◌, ◌≤◌, ◌<◌, ◌≡◌, ap, subst, inl, inr, Bool, false,
  some, arith,
}
use op_sys.Pages.{kernbase}
use op_sys.Vm.{Vm, deallocuvm, resized, growproc}
use op_sys.Vm.Shape.{IsShaped}
use op_sys.Vm.Clear.{IsAll, deallocuvm_lem}

-- When `growproc` returns from shrinking a process of more than 0 and at most KERNBASE bytes by all
-- of them, the result is -1 and the size is kept, as after an error; but no page of the process is
-- present any more.
pub growproc-IsAll :
    (end old new : ℕ) (vm vm' : Vm) (ok : Bool)
    → 0 < old
    → old ≤ kernbase
    → IsShaped vm
    → growproc end (word - old) old vm ≡ some (new, vm', ok)
    → (ok ≡ false) × (new ≡ old) × IsAll false 0 old vm'
unfolding growproc resized
growproc-IsAll end old new vm vm' ok big small s h = elim (Option-cases (deallocuvm end old 0 vm)) [
  | inl e ↦ absurd (ground (arith, shrinks, e, h))
  | inr ((vm1, r), e) ↦
      let cleared = deallocuvm_lem end old 0 r vm vm1 small big s e in
      let zero_size : r ≡ 0 = cleared.2 in
      let eq : vm1 ≡ vm' = ground (arith, shrinks, e, zero_size, h) in
      let no : ok ≡ false = ground (arith, shrinks, e, zero_size, h) in
      let kept : new ≡ old = ground (arith, shrinks, e, zero_size, h) in
      (no, kept, subst (IsAll false 0 old) eq cleared.0)
]
  where
    shrinks : growproc end (word - old) old vm ≡ resized old (deallocuvm end old 0 vm)
    shrinks =
        let far : (word - old == 0) ≡ false = ground (arith, small) in
        let minus : ltb (word - old) 2147483648 ≡ false = ground (arith, small) in
        rw (growproc, far, minus)
          (ap (λ sz. resized old (deallocuvm end old sz vm)) {x = (old + (word - old)) % word}
            {y = 0} (omega (arith, small)))
