-- ===== src/Hook.antt =====
-- The hook on the kernel's trap handler: trap_hook.c.
-- The kernel is not part of the repository: the ftrace and kprobe functions are parameters, over
-- a kernel state `K` that is a parameter too. `K` is what ftrace keeps of the hooks. An error code
-- is an `int` as a 32-bit pattern, 0 for success.
pub mod Laws
pub mod Trap
use Prim.Native.String.{String}
use opemu_linux.Common.{ℕ, ◌==◌, if◌then◌else◌, Option, none, some, neg, List, [], ◌∷◌, Bool}

-- `struct ftrace_hook`. `original` is the value behind the pointer `original`, and `ops` stands for
-- the address of the member `ops`, by which ftrace knows the hook.
pub record FtraceHook : Type 0 where
  pub name : String
  pub function : ℕ
  pub original : ℕ
  pub address : ℕ
  pub ops : ℕ
  pub func : ℕ
  pub flags : ℕ

-- The kernel's functions. `register_kprobe` gives the address of the symbol, or nothing where
-- it returns a negative number.
pub record Kernel (K : Type 0) : Type 0 where
  pub register_kprobe : String → Option ℕ
  pub ftrace_set_filter_ip : ℕ → ℕ → ℕ → ℕ → K → K × ℕ
  pub register_ftrace_function : ℕ → K → K × ℕ
  pub unregister_ftrace_function : ℕ → K → K × ℕ
  pub thunk : ℕ
  pub hook_flags : ℕ

abbrev pub enoent : ℕ
enoent = neg 32 2

-- The hook after the call, and the error code. The symbol is the one that the source writes; a
-- kprobe that cannot be registered is reported as success.
unfoldable pub resolved : FtraceHook → Option ℕ → FtraceHook × ℕ
resolved hook none = (hook, 0)
resolved hook (some addr) =
    if addr == 0
    then (record hook { address = addr }, enoent)
    else (record hook { address = addr; original = addr }, 0)

unfoldable pub fh_resolve_hook_address : {K : Type 0} → Kernel K → FtraceHook → FtraceHook × ℕ
unfolding resolved
fh_resolve_hook_address k hook = resolved hook (k.register_kprobe "kallsyms_lookup_name")

module _ {K : Type 0} (k : Kernel K) where
  -- The kernel, the hook and the error code after a call.
  abbrev Installed : Type 0
  Installed = K × FtraceHook × ℕ

  -- The rest of `fh_install_hook` once the address is known.
  unfoldable pub attach : FtraceHook → K → Installed
  attach hook st =
      let filtered = k.ftrace_set_filter_ip hook.ops hook.address 0 0 st in
      if filtered.1 == 0
      then (let registered = k.register_ftrace_function hook.ops filtered.0 in
          if registered.1 == 0 then (registered.0, hook, 0) else (
            (k.ftrace_set_filter_ip hook.ops hook.address 1 0 registered.0).0,
            hook,
            registered.1,
          ))
      else (filtered.0, hook, filtered.1)

  unfoldable pub fh_install_hook : FtraceHook → K → Installed
  unfolding attach
  fh_install_hook hook st =
      let r = fh_resolve_hook_address k hook in
      if r.1 == 0
      then attach (record r.0 { func = k.thunk; flags = k.hook_flags }) st
      else (st, r.0, r.1)

  -- Both errors are only printed.
  unfoldable pub fh_remove_hook : FtraceHook → K → K
  fh_remove_hook hook st =
      let left = (k.unregister_ftrace_function hook.ops st).0 in
      (k.ftrace_set_filter_ip hook.ops hook.address 1 0 left).0

  unfoldable pub fh_remove_hooks : List FtraceHook → K → K
  fh_remove_hooks [] st = st
  fh_remove_hooks (hook ∷ hooks) st = fh_remove_hooks hooks (fh_remove_hook hook st)

  -- The loop of `fh_install_hooks` from one index on. After an error at a later index the hook at
  -- this index is removed, and then those before it: the `while` counts down.
  unfoldable pub fh_install_hooks : List FtraceHook → K → K × List FtraceHook × ℕ
  fh_install_hooks [] st = (st, [], 0)
  fh_install_hooks (hook ∷ hooks) st =
      let r = fh_install_hook hook st in
      let rest = fh_install_hooks hooks r.0 in
      if r.2 == 0
      then (if rest.2 == 0
          then (rest.0, r.1 ∷ rest.1, 0)
          else (fh_remove_hook r.1 rest.0, r.1 ∷ rest.1, rest.2))
      else (r.0, r.1 ∷ hooks, r.2)

-- `demo_hooks`: one hook. `name` is SYSCALL_NAME("do_error_trap"), `function` the address of
-- `fh_do_error_trap`; the fields that HOOK does not set are 0, and so is the variable
-- `orig_do_error_trap`.
abbrev pub demo_hooks : String → ℕ → List FtraceHook
demo_hooks name function =
    record {
      name = name;
      function = function;
      original = 0;
      address = 0;
      ops = 0;
      func = 0;
      flags = 0;
    }
    ∷ []

module _ {K : Type 0} (k : Kernel K) where
  unfoldable pub fh_init : List FtraceHook → K → K × List FtraceHook × ℕ
  fh_init hooks st = let r = fh_install_hooks k hooks st in if r.2 == 0 then (r.0, r.1, 0) else r

  unfoldable pub fh_exit : List FtraceHook → K → K
  fh_exit hooks st = fh_remove_hooks k hooks st

-- `regs->ip` after `fh_ftrace_thunk`: a call from the module itself goes on to the original.
unfoldable pub fh_ftrace_thunk : (ℕ → Bool) → ℕ → FtraceHook → ℕ → ℕ
fh_ftrace_thunk within_module parent_ip hook ip =
    if within_module parent_ip then ip else hook.function
