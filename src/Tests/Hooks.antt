-- ===== src/Tests/Hooks.antt =====
-- Loading and unloading of the module on concrete inputs.
use opemu_linux.Common.{
  ℕ, zero, suc, ◌-◌, ◌≡◌, ◌≢◌, refl, ap, arith, List, ◌++◌, some, ◌==◌, if◌then◌else◌,
}
use opemu_linux.Hook.{
  FtraceHook, Kernel, demo_hooks, fh_resolve_hook_address, fh_remove_hook, fh_install_hook,
  fh_install_hooks, fh_init, fh_exit,
}
use opemu_linux.Hook.Laws.{IsKernel, remove_back, fh_install_hooks-rollback, fh_exit-fh_init}

-- A kernel that counts filters and registered hooks, and registers one hook at most.
abbrev register_one : ℕ → ℕ × ℕ → (ℕ × ℕ) × ℕ
register_one ops (f, zero) = ((f, 1), 0)
register_one ops (f, suc r) = ((f, suc r), 16)

abbrev set_filter : ℕ → ℕ → ℕ → ℕ → ℕ × ℕ → (ℕ × ℕ) × ℕ
set_filter ops ip zero reset (f, r) = ((suc f, r), 0)
set_filter ops ip (suc remove) reset (f, r) = ((f - 1, r), 0)

abbrev counting : Kernel (ℕ × ℕ)
counting = record {
  register_kprobe = λ s. some 0x1000;
  ftrace_set_filter_ip = set_filter;
  register_ftrace_function = register_one;
  unregister_ftrace_function = λ ops st. ((st.0, st.1 - 1), 0);
  thunk = 0x2000;
  hook_flags = 7;
}

counting-IsKernel : IsKernel counting
counting-IsKernel = record {
  filter_fails = λ ops ip reset st h. absurd (h refl);
  register_fails = keeps;
  filter_undone = λ ops ip st h. ap (λ (f : ℕ). (f, st.1)) (omega arith);
  register_undone = undone;
}
  where
    keeps : (ops : ℕ) (st : ℕ × ℕ) → (register_one ops st).1 ≢ 0 → (register_one ops st).0 ≡ st
    keeps ops (f, zero) h = absurd (h refl)
    keeps ops (f, suc r) h = refl

    undone :
        (ops : ℕ) (st : ℕ × ℕ)
        → (register_one ops st).1 ≡ 0
        → ((register_one ops st).0.0, (register_one ops st).0.1 - 1) ≡ st
    undone ops (f, zero) h = refl
    undone ops (f, suc r) h = absurd (omega arith)

abbrev two_hooks : List FtraceHook
two_hooks = demo_hooks "do_error_trap" 0x3000 ++ demo_hooks "do_trap" 0x4000

-- The second hook does not install, and the first is taken off.
rollback_run :
    fh_install_hooks counting two_hooks (0, 0)
    ≡ ((0, 0), (fh_install_hooks counting two_hooks (0, 0)).1, 16)
unfolding fh_install_hooks fh_install_hook fh_resolve_hook_address fh_remove_hook
rollback_run = refl

fh_install_hooks-rollback_example :
    let r = fh_install_hooks counting two_hooks (0, 0) in
    if r.2 == 0 then remove_back counting counting-IsKernel r.1 r.0 ≡ (0, 0) else r.0 ≡ (0, 0)
fh_install_hooks-rollback_example =
    fh_install_hooks-rollback counting counting-IsKernel two_hooks (0, 0)

fh_exit-fh_init_example :
    let r = fh_init counting (demo_hooks "do_error_trap" 0x3000) (0, 0) in
    if r.2 == 0 then fh_exit counting r.1 r.0 ≡ (0, 0) else r.0 ≡ (0, 0)
fh_exit-fh_init_example = fh_exit-fh_init counting counting-IsKernel "do_error_trap" 0x3000 (0, 0)
