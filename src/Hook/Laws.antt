-- ===== src/Hook/Laws.antt =====
-- Installing and removing hooks, over any kernel that keeps what ftrace documents.
use Prim.Native.String.{String}
use opemu_linux.Common.{ℕ, ◌≡◌, ◌≢◌, arith, ◌==◌, if◌then◌else◌, refl, none, some, List, [], ◌∷◌}
use opemu_linux.Hook.{
  FtraceHook, Kernel, demo_hooks, fh_init, fh_exit, resolved, fh_resolve_hook_address, attach,
  fh_install_hook, fh_remove_hook, fh_remove_hooks, fh_install_hooks,
}

-- A call that fails changes nothing, and the calls with which a hook is taken off undo those
-- with which it was put on.
pub record IsKernel {K : Type 0} (k : Kernel K) : Type 0 where
  pub filter_fails :
      (ops ip reset : ℕ) (st : K)
      → (k.ftrace_set_filter_ip ops ip 0 reset st).1 ≢ 0
      → (k.ftrace_set_filter_ip ops ip 0 reset st).0 ≡ st
  pub register_fails :
      (ops : ℕ) (st : K)
      → (k.register_ftrace_function ops st).1 ≢ 0
      → (k.register_ftrace_function ops st).0 ≡ st
  pub filter_undone :
      (ops ip : ℕ) (st : K)
      → (k.ftrace_set_filter_ip ops ip 0 0 st).1 ≡ 0
      → (k.ftrace_set_filter_ip ops ip 1 0 (k.ftrace_set_filter_ip ops ip 0 0 st).0).0 ≡ st
  pub register_undone :
      (ops : ℕ) (st : K)
      → (k.register_ftrace_function ops st).1 ≡ 0
      → (k.unregister_ftrace_function ops (k.register_ftrace_function ops st).0).0 ≡ st

module _ {K : Type 0} (k : Kernel K) (is : IsKernel k) where
  attach-undone :
      (hook : FtraceHook) (st : K)
      → let r = attach k hook st in
        (r.1 ≡ hook) × (r.2 ≡ 0 → fh_remove_hook k hook r.0 ≡ st) × (r.2 ≢ 0 → r.0 ≡ st)
  unfolding attach fh_remove_hook
  attach-undone hook st =
      let filtered = k.ftrace_set_filter_ip hook.ops hook.address 0 0 st in
      let f1 = is.filter_fails hook.ops hook.address 0 st in
      let f2 = is.filter_undone hook.ops hook.address st in
      let r1 = is.register_fails hook.ops filtered.0 in
      let r2 = is.register_undone hook.ops filtered.0 in ground arith

  -- One hook: an error leaves the kernel as it was, and after a success removing the hook does.
  fh_install_hook-undone :
      (hook : FtraceHook) (st : K)
      → let r = fh_install_hook k hook st in
        (r.2 ≡ 0 → fh_remove_hook k r.1 r.0 ≡ st) × (r.2 ≢ 0 → r.0 ≡ st)
  unfolding fh_install_hook
  fh_install_hook-undone hook st =
      let found = fh_resolve_hook_address k hook in
      let attached = attach-undone (record found.0 { func = k.thunk; flags = k.hook_flags }) st in
      ground arith

  -- The hooks removed from the last to the first.
  unfoldable pub remove_back : List FtraceHook → K → K
  remove_back [] st = st
  remove_back (hook ∷ hooks) st = fh_remove_hook k hook (remove_back hooks st)

  -- If any hook of the array fails to install, every one before it is removed again and the kernel
  -- is as it was; if none does, removing them in reverse brings it back.
  pub fh_install_hooks-rollback :
      (hooks : List FtraceHook) (st : K)
      → let r = fh_install_hooks k hooks st in
        if r.2 == 0 then remove_back r.1 r.0 ≡ st else r.0 ≡ st
  unfolding fh_install_hooks remove_back
  fh_install_hooks-rollback [] st = refl
  fh_install_hooks-rollback (hook ∷ hooks) st =
      let first = fh_install_hook k hook st in
      let one = fh_install_hook-undone hook st in
      let rest = fh_install_hooks k hooks first.0 in
      let later = fh_install_hooks-rollback hooks first.0 in ground arith

  -- Loading the module either fails and leaves the kernel as it was, or unloading it later does.
  pub fh_exit-fh_init :
      (name : String) (function : ℕ) (st : K)
      → let r = fh_init k (demo_hooks name function) st in
        if r.2 == 0 then fh_exit k r.1 r.0 ≡ st else r.0 ≡ st
  unfolding fh_init fh_exit fh_install_hooks fh_remove_hooks
  fh_exit-fh_init name function st =
      let one =
        fh_install_hook-undone
          (record {
            name = name;
            function = function;
            original = 0;
            address = 0;
            ops = 0;
            func = 0;
            flags = 0;
          })
          st in
      ground arith

-- What is resolved is the kernel's `kallsyms_lookup_name`, whatever the hook is called: the
-- address that is hooked and the function that is kept as the original are those of that symbol.
fh_install_hook-address :
    {K : Type 0} (k : Kernel K) (hook : FtraceHook) (st : K) (addr : ℕ)
    → k.register_kprobe "kallsyms_lookup_name" ≡ some addr
    → addr ≢ 0
    → let r = fh_install_hook k hook st in
      (r.1.address ≡ addr) × (r.1.original ≡ addr) × (r.1.func ≡ k.thunk)
unfolding fh_install_hook fh_resolve_hook_address resolved attach
fh_install_hook-address k hook st addr h p = ground arith

-- Where no kprobe can be registered the hook is installed all the same, on the address that it
-- had before, and the original is never set.
fh_install_hook-unresolved :
    {K : Type 0} (k : Kernel K) (hook : FtraceHook) (st : K)
    → k.register_kprobe "kallsyms_lookup_name" ≡ none
    → let r = fh_install_hook k hook st in
      (r.1.original ≡ hook.original)
      × (r.0 ≡ (attach k (record hook { func = k.thunk; flags = k.hook_flags }) st).0)
unfolding fh_install_hook fh_resolve_hook_address resolved attach
fh_install_hook-unresolved k hook st h = ground arith
