-- ===== src/Managers.antt =====
-- csrc/runtime/inject_helpers/RegisterManager.cpp, FuncManager.cpp and LaunchManager.cpp: the registered
-- binaries, the functions found in them and their launches, with the arguments of ArgsManager.cpp.
-- A handle is a number. What a registration makes of a binary's bytes is of any type `B`, and
-- `init` makes it, `none` when it fails; `read_binary` gives a file's bytes. `A` is the type of
-- the argument contexts. The launches are those of one device, and a manager's call is one step,
-- also the two registrations of which the source reads and raises the next id outside of the lock.
pub mod Launches
pub mod Registrations
mod Tests
use msopcom.Prelude.{
  ℕ, suc, ◌+◌, Bool, true, false, Option, none, some, List, [], ◌∷◌, ◌++◌, ltb, if◌then◌else◌,
  length, get_elem?, is_empty, insert, lookup, member, value_or, nat_eq, pair_eq,
}
use msopcom.Wire.{Bytes}
use msopcom.Args.Manager.{ArgsManager, get_context}

pub record RegisterContext (B : Type 0) : Type 0 where
  pub reg_id : ℕ
  pub magic : ℕ
  pub bin_handle : ℕ
  pub binary : B

pub record RegisterManager (B : Type 0) : Type 0 where
  pub registers : List (ℕ × RegisterContext B)
  pub temp_elf_data : List (ℕ × Bytes)
  pub current_reg_id : ℕ

-- `StubFuncContext` and `TilingFuncContext`.
pub data FuncKind : Type 0 where
  stub : Bytes → FuncKind
  tiling : ℕ → FuncKind

pub record FuncContext (B : Type 0) : Type 0 where
  pub register_context : RegisterContext B
  pub func_kind : FuncKind
  pub func_handle : ℕ

pub record FuncManager (B : Type 0) : Type 0 where
  pub funcs : List (ℕ × FuncContext B)
  pub fake_func_handle_table : List ((ℕ × ℕ) × ℕ)

pub record StreamInfo : Type 0 where
  pub binded : Bool
  pub subscribed : Bool

pub record LaunchContext (A B : Type 0) : Type 0 where
  pub func_ctx : FuncContext B
  pub args_ctx : A
  pub block_dim : ℕ
  pub launch_stream : ℕ
  pub is_sink : Bool
  pub launch_id : ℕ

-- `local_memory_size` of a launch's configuration, `none` for a null one, is kept for the sanitizer.
pub record LaunchManager (A B : Type 0) : Type 0 where
  pub launches : List (LaunchContext A B)
  pub stream_infos : List (ℕ × StreamInfo)
  pub simt_ub_dynamic_size : ℕ

module _ {B : Type 0} where
  -- The end of each `CreateContext` of `RegisterManager`, once `Init` has its result.
  pub registered :
      Option B → ℕ → ℕ → RegisterManager B → Option (RegisterContext B) × RegisterManager B
  registered none handle magic m = (none, m)
  registered (some b) handle magic m =
      let ctx : RegisterContext B = record {
        reg_id = m.current_reg_id;
        magic = magic;
        bin_handle = handle;
        binary = b;
      } in
      (
        some ctx,
        record m {
          registers = insert handle ctx m.registers;
          current_reg_id = m.current_reg_id + 1;
        },
      )

  -- `GetContext`.
  pub get_register : ℕ → RegisterManager B → Option (RegisterContext B)
  get_register handle m = lookup handle m.registers

  -- `CacheElfData`; MAX_MEM_BYTE_SIZE is 30 GiB.
  pub cache_elf_data : ℕ → Bytes → RegisterManager B → RegisterManager B
  cache_elf_data bin bytes m =
      if ltb 32212254720 (length bytes)
      then m
      else record m { temp_elf_data = insert bin bytes m.temp_elf_data }

  -- Both `CreateContext` of `FuncManager`, once the binary is looked up.
  pub create_func_of :
      Option (RegisterContext B)
      → FuncKind
      → ℕ
      → FuncManager B
      → Option (FuncContext B) × FuncManager B
  create_func_of none kind handle m = (none, m)
  create_func_of (some ctx) kind handle m =
      let f : FuncContext B = record {
        register_context = ctx;
        func_kind = kind;
        func_handle = handle;
      } in
      (some f, record m { funcs = insert handle f m.funcs })

  pub create_func :
      ℕ → FuncKind → ℕ → RegisterManager B → FuncManager B → Option (FuncContext B) × FuncManager B
  create_func bin_handle kind handle r = create_func_of (lookup bin_handle r.registers) kind handle

  -- `GetContext` by a handle, and by a binary with an entry.
  pub get_func : ℕ → FuncManager B → Option (FuncContext B)
  get_func handle m = lookup handle m.funcs

  pub get_func_at : Option ℕ → FuncManager B → Option (FuncContext B)
  get_func_at none m = none
  get_func_at (some handle) m = lookup handle m.funcs

  pub get_func_by_entry : ℕ → ℕ → FuncManager B → Option (FuncContext B)
  get_func_by_entry bin_handle entry m =
      get_func_at (lookup (bin_handle, entry) m.fake_func_handle_table) m

module _ {B : Type 0} (init : Bytes → Option B) (read_binary : Bytes → Option Bytes) where
  -- The three `CreateContext` of `RegisterManager`: from bytes, from a file, from the bytes that were
  -- cached for a binary, for which a missing entry is made.
  pub create_from_data :
      Bytes → ℕ → ℕ → RegisterManager B → Option (RegisterContext B) × RegisterManager B
  create_from_data bytes = registered (init bytes)

  unfoldable pub init_file : Option Bytes → Option B
  init_file none = none
  init_file (some bytes) = init bytes

  pub create_from_file :
      Bytes → ℕ → ℕ → RegisterManager B → Option (RegisterContext B) × RegisterManager B
  create_from_file path = registered (init_file (read_binary path))

  pub create_from_cache :
      ℕ → ℕ → ℕ → RegisterManager B → Option (RegisterContext B) × RegisterManager B
  create_from_cache bin handle magic m =
      let bytes = value_or [] (lookup bin m.temp_elf_data) in
      let held = record m { temp_elf_data = insert bin bytes m.temp_elf_data } in
      registered (if is_empty bytes then none else init bytes) handle magic held

module _ {A B : Type 0} where
  -- `GetOrCreateStreamInfo`.
  unfoldable pub stream_info : ℕ → LaunchManager A B → StreamInfo
  stream_info stream m =
      value_or (record { binded = false; subscribed = false }) (lookup stream m.stream_infos)

  -- `CreateContext` of `LaunchManager`, with what its lookups of the function and the arguments
  -- gave. The stream's information is made first, in any case.
  pub create_launch :
      Bool
      → Option (FuncContext B)
      → Option A
      → ℕ
      → ℕ
      → Option ℕ
      → LaunchManager A B
      → Option (LaunchContext A B) × LaunchManager A B
  create_launch is_sanitizer none args dim stream cfg m =
      (none, record m { stream_infos = insert stream (stream_info stream m) m.stream_infos })
  create_launch is_sanitizer (some f) none dim stream cfg m =
      (none, record m { stream_infos = insert stream (stream_info stream m) m.stream_infos })
  create_launch is_sanitizer (some f) (some a) dim stream cfg m =
      let ctx : LaunchContext A B = record {
        func_ctx = f;
        args_ctx = a;
        block_dim = dim;
        launch_stream = stream;
        is_sink = (stream_info stream m).binded;
        launch_id = length m.launches;
      } in
      (
        some ctx,
        record {
          launches = m.launches ++ (ctx ∷ []);
          stream_infos = insert stream (stream_info stream m) m.stream_infos;
          simt_ub_dynamic_size = if is_sanitizer then value_or 0 cfg else m.simt_ub_dynamic_size;
        },
      )

  -- `GetContext` and `GetLastContext`.
  pub get_launch : ℕ → LaunchManager A B → Option (LaunchContext A B)
  get_launch id m = if ltb id (length m.launches) then get_elem? m.launches id else none

  pub last_of : List (LaunchContext A B) → Option (LaunchContext A B)
  last_of [] = none
  last_of (x ∷ []) = some x
  last_of (x ∷ y ∷ xs) = last_of (y ∷ xs)

  pub get_last_launch : LaunchManager A B → Option (LaunchContext A B)
  get_last_launch m = last_of m.launches

-- The three managers together, and their calls.
pub record Managers (A B : Type 0) : Type 0 where
  pub register_manager : RegisterManager B
  pub func_manager : FuncManager B
  pub launch_manager : LaunchManager A B

pub data Call (A : Type 0) : Type 0 where
  register_data : Bytes → ℕ → ℕ → Call A
  register_file : Bytes → ℕ → ℕ → Call A
  register_cached : ℕ → ℕ → ℕ → Call A
  cache_data : ℕ → Bytes → Call A
  find_func : ℕ → FuncKind → ℕ → Call A
  launch : Bool → ℕ → Option A → ℕ → ℕ → Option ℕ → Call A

pub fresh : {A B : Type 0} → Managers A B
fresh = record {
  register_manager = record { registers = []; temp_elf_data = []; current_reg_id = 0 };
  func_manager = record { funcs = []; fake_func_handle_table = [] };
  launch_manager = record { launches = []; stream_infos = []; simt_ub_dynamic_size = 0 };
}

module _ {A B : Type 0} (init : Bytes → Option B) (read_binary : Bytes → Option Bytes) where
  unfoldable pub step : Call A → Managers A B → Managers A B
  step (register_data bytes handle magic) m = record m {
    register_manager = (create_from_data init read_binary bytes handle magic m.register_manager).1;
  }
  step (register_file path handle magic) m = record m {
    register_manager = (create_from_file init read_binary path handle magic m.register_manager).1;
  }
  step (register_cached bin handle magic) m = record m {
    register_manager = (create_from_cache init read_binary bin handle magic m.register_manager).1;
  }
  step (cache_data bin bytes) m = record m {
    register_manager = cache_elf_data bin bytes m.register_manager;
  }
  step (find_func bin kind handle) m = record m {
    func_manager = (create_func bin kind handle m.register_manager m.func_manager).1;
  }
  step (launch is_sanitizer handle args dim stream cfg) m = record m {
    launch_manager =
        (create_launch is_sanitizer (get_func handle m.func_manager) args dim stream cfg
          m.launch_manager).1;
  }

  unfoldable pub run : List (Call A) → Managers A B → Managers A B
  run [] m = m
  run (c ∷ cs) m = run cs (step c m)
