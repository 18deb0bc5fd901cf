-- ===== src/Replacement.antt =====
-- csrc/runtime/inject_helpers/KernelReplacement.cpp and KernelReplacement.h: the kernel that is registered in
-- place of another one, with the lookups of csrc/runtime/inject_helpers/KernelContext.cpp that it asks.
-- Addresses, handles and binaries' versions are numbers, 0 is the null handle. The bytes of the
-- replacing file and the runtime's answer to a registration are arguments, `none` for an error, and
-- the calls of the runtime are kept, the newest first. Of a binary its magic, version and bytes.
pub mod Pairs
pub mod Sharing
mod Tests
use msopcom.Prelude.{
  ℕ, ◌-◌, Bool, true, false, not, ◌&&◌, ◌||◌, Option, none, some, List, [], ◌∷◌, if◌then◌else◌,
  length, get_elem?, is_empty, lookup, value_or, nat_beq, nat_eq,
}
use msopcom.Wire.{Bytes}
use msopcom.Selector.{MatchConfig, match_launch, any_id}

pub record DevBinary : Type 0 where
  pub magic : ℕ
  pub version : ℕ
  pub bytes : Bytes

-- Of `LaunchEvent` its handle and the kernel's name; of `RegisterEvent` the binary.
pub record LaunchEvent : Type 0 where
  pub hdl : ℕ
  pub kernel_name : Bytes

pub record KernelContext : Type 0 where
  pub launch_events : List LaunchEvent
  pub stub_info : List (ℕ × ℕ)
  pub hdl_to_reg_id : List (ℕ × ℕ)
  pub register_events : List DevBinary

-- `GetRegisterId` by a key, for which a stub function is replaced by its handle.
pub handle_key : ℕ → Bool → KernelContext → Option ℕ
handle_key key true k = some key
handle_key key false k = lookup key k.stub_info

pub reg_id_of : Option ℕ → KernelContext → ℕ
reg_id_of none k = any_id
reg_id_of (some hdl) k = value_or any_id (lookup hdl k.hdl_to_reg_id)

pub get_register_id : ℕ → Bool → KernelContext → ℕ
get_register_id key with_handle k = reg_id_of (handle_key key with_handle k) k

pub event_reg_id : Option LaunchEvent → KernelContext → ℕ
event_reg_id none k = any_id
event_reg_id (some event) k = get_register_id event.hdl true k

-- `GetRegisterId` of a launch, `GetLaunchId`, `GetLaunchName` and `GetRegisterEvent`.
pub get_register_id_at : ℕ → KernelContext → ℕ
get_register_id_at launch k = event_reg_id (get_elem? k.launch_events launch) k

abbrev pub invalid_launch_id : Bytes
invalid_launch_id =
    105 ∷ 110 ∷ 118 ∷ 97 ∷ 108 ∷ 105 ∷ 100 ∷ 95 ∷ 108 ∷ 97 ∷ 117 ∷ 110 ∷ 99 ∷ 104 ∷ 95 ∷ 105 ∷ 100
    ∷ []

pub get_launch_id : KernelContext → ℕ
get_launch_id k = if is_empty k.launch_events then any_id else length k.launch_events - 1

pub event_name : Option LaunchEvent → Bytes
event_name none = invalid_launch_id
event_name (some event) = event.kernel_name

pub get_launch_name : ℕ → KernelContext → Bytes
get_launch_name launch k =
    let id = if nat_beq launch any_id then get_launch_id k else launch in
    event_name (get_elem? k.launch_events id)

pub get_register_event : ℕ → KernelContext → Option DevBinary
get_register_event reg_id k = get_elem? k.register_events reg_id

-- What is asked of the runtime; the flag tells `rtDevBinaryRegister` from `rtRegisterAllKernel`.
pub data RuntimeCall : Type 0 where
  register_binary : Bool → DevBinary → ℕ → RuntimeCall
  unregister_binary : ℕ → RuntimeCall

-- `bin_handle` is null in every task, nothing sets it.
pub record KernelReplaceTask : Type 0 where
  pub kernel_path : Bytes
  pub bin : DevBinary
  pub handle : ℕ

pub record KernelReplacement : Type 0 where
  pub old_kernel_reg_id : ℕ
  pub kernel_path : Bytes
  pub matcher : Option MatchConfig
  pub replace_task : Option KernelReplaceTask
  pub calls : List RuntimeCall

-- `Init`.
pub init : Bytes → MatchConfig → KernelReplacement → KernelReplacement
init path config s = record s { kernel_path = path; matcher = some config }

pub new_task : Bytes → KernelReplaceTask
new_task path = record {
  kernel_path = path;
  bin = record { magic = 0; version = 0; bytes = [] };
  handle = 0;
}

-- `~KernelReplaceTask`.
pub destroy : Option KernelReplaceTask → List RuntimeCall → List RuntimeCall
destroy none calls = calls
destroy (some t) calls = if nat_beq t.handle 0 then calls else unregister_binary t.handle ∷ calls

-- The end of `Run`: the runtime's answer, whether the task ran, the task and the calls.
pub run_registered :
    Option ℕ
    → Bool
    → DevBinary
    → KernelReplaceTask
    → List RuntimeCall
    → Bool × KernelReplaceTask × List RuntimeCall
run_registered none with_stub bin t calls = (false, record t { bin = bin }, calls)
run_registered (some h) with_stub bin t calls =
    (true, record t { bin = bin; handle = h }, register_binary with_stub bin h ∷ calls)

pub run_event :
    Option DevBinary
    → Bytes
    → Option ℕ
    → Bool
    → KernelReplaceTask
    → List RuntimeCall
    → Bool × KernelReplaceTask × List RuntimeCall
run_event none content answer with_stub t calls = (false, t, calls)
run_event (some old) content answer with_stub t calls =
    if is_empty content
    then (false, t, calls)
    else run_registered answer with_stub (record old { bytes = content }) t calls

-- `KernelReplaceTask::Run`.
pub run_task :
    KernelContext
    → Bytes
    → Option ℕ
    → ℕ
    → Bool
    → KernelReplaceTask
    → List RuntimeCall
    → Bool × KernelReplaceTask × List RuntimeCall
run_task k content answer reg_id = run_event (get_register_event reg_id k) content answer

pub follows : Option MatchConfig → ℕ → Bytes → Bool
follows none launch name = false
follows (some config) launch name = match_launch config launch name

-- `CreateHandle`: what is returned, the handle that is written, if any, and the state. First the case
-- of a kernel that was replaced before.
pub held_handle : Option KernelReplaceTask → ℕ → ℕ → Bool × Option ℕ
held_handle none old reg_id = (false, none)
held_handle (some t) old reg_id =
    if nat_beq old reg_id then (true, some t.handle) else (false, none)

-- The task that has run is kept, or destroyed.
pub settled :
    Bool × KernelReplaceTask × List RuntimeCall
    → ℕ
    → KernelReplacement
    → (Bool × Option ℕ) × KernelReplacement
settled (true, t, calls) reg_id s = (
  (true, some t.handle),
  record s { old_kernel_reg_id = reg_id; replace_task = some t; calls = calls },
)
settled (false, t, calls) reg_id s =
    ((true, none), record s { replace_task = none; calls = destroy (some t) calls })

pub create_task :
    KernelContext → Bytes → Option ℕ → ℕ → KernelReplacement → (Bool × Option ℕ) × KernelReplacement
create_task k content answer reg_id s =
    let calls = destroy s.replace_task s.calls in
    settled (run_task k content answer reg_id false (new_task s.kernel_path) calls) reg_id s

pub is_refused : KernelContext → Bool → ℕ → KernelReplacement → Bool
is_refused k given launch s =
    not given
    || is_empty s.kernel_path
    || not (follows s.matcher launch (get_launch_name any_id k))
    || nat_beq (get_register_id_at launch k) any_id

pub create_known :
    KernelContext → Bytes → Option ℕ → ℕ → KernelReplacement → (Bool × Option ℕ) × KernelReplacement
create_known k content answer reg_id s =
    if not (nat_beq s.old_kernel_reg_id any_id)
    then (held_handle s.replace_task s.old_kernel_reg_id reg_id, s)
    else create_task k content answer reg_id s

pub create_handle :
    KernelContext
    → Bytes
    → Option ℕ
    → Bool
    → ℕ
    → KernelReplacement
    → (Bool × Option ℕ) × KernelReplacement
create_handle k content answer given launch s =
    if is_refused k given launch s
    then ((false, none), s)
    else create_known k content answer (get_register_id_at launch k) s

-- `ReleaseHandle`.
pub release_task : Option KernelReplaceTask → ℕ → KernelReplacement → Bool × KernelReplacement
release_task none reg_id s = (false, s)
release_task (some t) reg_id s =
    if nat_beq reg_id any_id || not (nat_beq reg_id s.old_kernel_reg_id) then (false, s) else (
      true,
      record s {
        replace_task = none;
        calls = destroy (some t) s.calls;
        old_kernel_reg_id = any_id;
      },
    )

pub release_handle : KernelContext → ℕ → KernelReplacement → Bool × KernelReplacement
release_handle k handle s = release_task s.replace_task (get_register_id handle true k) s

-- The calls of the one instance, each with the kernel context of its time.
pub data Step : Type 0 where
  init_with : Bytes → MatchConfig → Step
  create : KernelContext → Bytes → Option ℕ → Bool → ℕ → Step
  release : KernelContext → ℕ → Step

pub step : Step → KernelReplacement → KernelReplacement
step (init_with path config) s = init path config s
step (create k content answer given launch) s = (create_handle k content answer given launch s).1
step (release k handle) s = (release_handle k handle s).1

pub run : List Step → KernelReplacement → KernelReplacement
run [] s = s
run (x ∷ xs) s = run xs (step x s)

abbrev pub unused : KernelReplacement
unused = record {
  old_kernel_reg_id = any_id;
  kernel_path = [];
  matcher = none;
  replace_task = none;
  calls = [];
}
