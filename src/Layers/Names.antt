-- ===== src/Layers/Names.antt =====
-- The names in the table of csrc/core/HijackedLayerManager.cpp: each interface of the `acl` layer
-- with the `rt` interfaces that it calls. A name is the list of its bytes.
use msopcom.Prelude.{List, [], ◌∷◌}
use msopcom.Wire.{Bytes}

abbrev pub aclrt_set_device_impl : Bytes
aclrt_set_device_impl =
    b'a' ∷ b'c' ∷ b'l' ∷ b'r' ∷ b't' ∷ b'S' ∷ b'e' ∷ b't' ∷ b'D' ∷ b'e' ∷ b'v' ∷ b'i' ∷ b'c' ∷ b'e'
    ∷ b'I' ∷ b'm' ∷ b'p' ∷ b'l' ∷ []

abbrev pub rt_set_device : Bytes
rt_set_device = b'r' ∷ b't' ∷ b'S' ∷ b'e' ∷ b't' ∷ b'D' ∷ b'e' ∷ b'v' ∷ b'i' ∷ b'c' ∷ b'e' ∷ []

abbrev pub aclrt_reset_device_impl : Bytes
aclrt_reset_device_impl =
    b'a' ∷ b'c' ∷ b'l' ∷ b'r' ∷ b't' ∷ b'R' ∷ b'e' ∷ b's' ∷ b'e' ∷ b't' ∷ b'D' ∷ b'e' ∷ b'v' ∷ b'i'
    ∷ b'c' ∷ b'e' ∷ b'I' ∷ b'm' ∷ b'p' ∷ b'l' ∷ []

abbrev pub rt_device_reset : Bytes
rt_device_reset =
    b'r' ∷ b't' ∷ b'D' ∷ b'e' ∷ b'v' ∷ b'i' ∷ b'c' ∷ b'e' ∷ b'R' ∷ b'e' ∷ b's' ∷ b'e' ∷ b't' ∷ []

abbrev pub aclrt_malloc_impl : Bytes
aclrt_malloc_impl =
    b'a' ∷ b'c' ∷ b'l' ∷ b'r' ∷ b't' ∷ b'M' ∷ b'a' ∷ b'l' ∷ b'l' ∷ b'o' ∷ b'c' ∷ b'I' ∷ b'm' ∷ b'p'
    ∷ b'l' ∷ []

abbrev pub rt_malloc : Bytes
rt_malloc = b'r' ∷ b't' ∷ b'M' ∷ b'a' ∷ b'l' ∷ b'l' ∷ b'o' ∷ b'c' ∷ []

abbrev pub aclrt_free_impl : Bytes
aclrt_free_impl =
    b'a' ∷ b'c' ∷ b'l' ∷ b'r' ∷ b't' ∷ b'F' ∷ b'r' ∷ b'e' ∷ b'e' ∷ b'I' ∷ b'm' ∷ b'p' ∷ b'l' ∷ []

abbrev pub rt_free : Bytes
rt_free = b'r' ∷ b't' ∷ b'F' ∷ b'r' ∷ b'e' ∷ b'e' ∷ []

abbrev pub aclrt_memset_impl : Bytes
aclrt_memset_impl =
    b'a' ∷ b'c' ∷ b'l' ∷ b'r' ∷ b't' ∷ b'M' ∷ b'e' ∷ b'm' ∷ b's' ∷ b'e' ∷ b't' ∷ b'I' ∷ b'm' ∷ b'p'
    ∷ b'l' ∷ []

abbrev pub rt_memset : Bytes
rt_memset = b'r' ∷ b't' ∷ b'M' ∷ b'e' ∷ b'm' ∷ b's' ∷ b'e' ∷ b't' ∷ []

abbrev pub aclrt_memcpy_impl : Bytes
aclrt_memcpy_impl =
    b'a' ∷ b'c' ∷ b'l' ∷ b'r' ∷ b't' ∷ b'M' ∷ b'e' ∷ b'm' ∷ b'c' ∷ b'p' ∷ b'y' ∷ b'I' ∷ b'm' ∷ b'p'
    ∷ b'l' ∷ []

abbrev pub rt_memcpy : Bytes
rt_memcpy = b'r' ∷ b't' ∷ b'M' ∷ b'e' ∷ b'm' ∷ b'c' ∷ b'p' ∷ b'y' ∷ []

abbrev pub aclrt_map_mem_impl : Bytes
aclrt_map_mem_impl =
    b'a' ∷ b'c' ∷ b'l' ∷ b'r' ∷ b't' ∷ b'M' ∷ b'a' ∷ b'p' ∷ b'M' ∷ b'e' ∷ b'm' ∷ b'I' ∷ b'm' ∷ b'p'
    ∷ b'l' ∷ []

abbrev pub rt_map_mem : Bytes
rt_map_mem = b'r' ∷ b't' ∷ b'M' ∷ b'a' ∷ b'p' ∷ b'M' ∷ b'e' ∷ b'm' ∷ []

abbrev pub aclrt_unmap_mem_impl : Bytes
aclrt_unmap_mem_impl =
    b'a' ∷ b'c' ∷ b'l' ∷ b'r' ∷ b't' ∷ b'U' ∷ b'n' ∷ b'm' ∷ b'a' ∷ b'p' ∷ b'M' ∷ b'e' ∷ b'm' ∷ b'I'
    ∷ b'm' ∷ b'p' ∷ b'l' ∷ []

abbrev pub rt_unmap_mem : Bytes
rt_unmap_mem = b'r' ∷ b't' ∷ b'U' ∷ b'n' ∷ b'm' ∷ b'a' ∷ b'p' ∷ b'M' ∷ b'e' ∷ b'm' ∷ []

abbrev pub aclrt_ipc_mem_get_export_key_impl : Bytes
aclrt_ipc_mem_get_export_key_impl =
    b'a' ∷ b'c' ∷ b'l' ∷ b'r' ∷ b't' ∷ b'I' ∷ b'p' ∷ b'c' ∷ b'M' ∷ b'e' ∷ b'm' ∷ b'G' ∷ b'e' ∷ b't'
    ∷ b'E' ∷ b'x' ∷ b'p' ∷ b'o' ∷ b'r' ∷ b't' ∷ b'K' ∷ b'e' ∷ b'y' ∷ b'I' ∷ b'm' ∷ b'p' ∷ b'l' ∷ []

abbrev pub rt_ipc_set_memory_name : Bytes
rt_ipc_set_memory_name =
    b'r' ∷ b't' ∷ b'I' ∷ b'p' ∷ b'c' ∷ b'S' ∷ b'e' ∷ b't' ∷ b'M' ∷ b'e' ∷ b'm' ∷ b'o' ∷ b'r' ∷ b'y'
    ∷ b'N' ∷ b'a' ∷ b'm' ∷ b'e' ∷ []

abbrev pub aclrt_ipc_mem_import_by_key_impl : Bytes
aclrt_ipc_mem_import_by_key_impl =
    b'a' ∷ b'c' ∷ b'l' ∷ b'r' ∷ b't' ∷ b'I' ∷ b'p' ∷ b'c' ∷ b'M' ∷ b'e' ∷ b'm' ∷ b'I' ∷ b'm' ∷ b'p'
    ∷ b'o' ∷ b'r' ∷ b't' ∷ b'B' ∷ b'y' ∷ b'K' ∷ b'e' ∷ b'y' ∷ b'I' ∷ b'm' ∷ b'p' ∷ b'l' ∷ []

abbrev pub rt_ipc_open_memory : Bytes
rt_ipc_open_memory =
    b'r' ∷ b't' ∷ b'I' ∷ b'p' ∷ b'c' ∷ b'O' ∷ b'p' ∷ b'e' ∷ b'n' ∷ b'M' ∷ b'e' ∷ b'm' ∷ b'o' ∷ b'r'
    ∷ b'y' ∷ []

abbrev pub aclrt_ipc_mem_close_impl : Bytes
aclrt_ipc_mem_close_impl =
    b'a' ∷ b'c' ∷ b'l' ∷ b'r' ∷ b't' ∷ b'I' ∷ b'p' ∷ b'c' ∷ b'M' ∷ b'e' ∷ b'm' ∷ b'C' ∷ b'l' ∷ b'o'
    ∷ b's' ∷ b'e' ∷ b'I' ∷ b'm' ∷ b'p' ∷ b'l' ∷ []

abbrev pub rt_ipc_destroy_memory_name : Bytes
rt_ipc_destroy_memory_name =
    b'r' ∷ b't' ∷ b'I' ∷ b'p' ∷ b'c' ∷ b'D' ∷ b'e' ∷ b's' ∷ b't' ∷ b'r' ∷ b'o' ∷ b'y' ∷ b'M' ∷ b'e'
    ∷ b'm' ∷ b'o' ∷ b'r' ∷ b'y' ∷ b'N' ∷ b'a' ∷ b'm' ∷ b'e' ∷ []

abbrev pub rt_ipc_close_memory : Bytes
rt_ipc_close_memory =
    b'r' ∷ b't' ∷ b'I' ∷ b'p' ∷ b'c' ∷ b'C' ∷ b'l' ∷ b'o' ∷ b's' ∷ b'e' ∷ b'M' ∷ b'e' ∷ b'm' ∷ b'o'
    ∷ b'r' ∷ b'y' ∷ []

abbrev pub aclrt_get_device_impl : Bytes
aclrt_get_device_impl =
    b'a' ∷ b'c' ∷ b'l' ∷ b'r' ∷ b't' ∷ b'G' ∷ b'e' ∷ b't' ∷ b'D' ∷ b'e' ∷ b'v' ∷ b'i' ∷ b'c' ∷ b'e'
    ∷ b'I' ∷ b'm' ∷ b'p' ∷ b'l' ∷ []

abbrev pub rt_get_device : Bytes
rt_get_device = b'r' ∷ b't' ∷ b'G' ∷ b'e' ∷ b't' ∷ b'D' ∷ b'e' ∷ b'v' ∷ b'i' ∷ b'c' ∷ b'e' ∷ []

abbrev pub aclrt_create_context_impl : Bytes
aclrt_create_context_impl =
    b'a' ∷ b'c' ∷ b'l' ∷ b'r' ∷ b't' ∷ b'C' ∷ b'r' ∷ b'e' ∷ b'a' ∷ b't' ∷ b'e' ∷ b'C' ∷ b'o' ∷ b'n'
    ∷ b't' ∷ b'e' ∷ b'x' ∷ b't' ∷ b'I' ∷ b'm' ∷ b'p' ∷ b'l' ∷ []

abbrev pub rt_ctx_create_ex : Bytes
rt_ctx_create_ex =
    b'r' ∷ b't' ∷ b'C' ∷ b't' ∷ b'x' ∷ b'C' ∷ b'r' ∷ b'e' ∷ b'a' ∷ b't' ∷ b'e' ∷ b'E' ∷ b'x' ∷ []

abbrev pub aclrt_query_device_status_impl : Bytes
aclrt_query_device_status_impl =
    b'a' ∷ b'c' ∷ b'l' ∷ b'r' ∷ b't' ∷ b'Q' ∷ b'u' ∷ b'e' ∷ b'r' ∷ b'y' ∷ b'D' ∷ b'e' ∷ b'v' ∷ b'i'
    ∷ b'c' ∷ b'e' ∷ b'S' ∷ b't' ∷ b'a' ∷ b't' ∷ b'u' ∷ b's' ∷ b'I' ∷ b'm' ∷ b'p' ∷ b'l' ∷ []

abbrev pub rt_device_status_query : Bytes
rt_device_status_query =
    b'r' ∷ b't' ∷ b'D' ∷ b'e' ∷ b'v' ∷ b'i' ∷ b'c' ∷ b'e' ∷ b'S' ∷ b't' ∷ b'a' ∷ b't' ∷ b'u' ∷ b's'
    ∷ b'Q' ∷ b'u' ∷ b'e' ∷ b'r' ∷ b'y' ∷ []

abbrev pub aclrt_get_device_count_impl : Bytes
aclrt_get_device_count_impl =
    b'a' ∷ b'c' ∷ b'l' ∷ b'r' ∷ b't' ∷ b'G' ∷ b'e' ∷ b't' ∷ b'D' ∷ b'e' ∷ b'v' ∷ b'i' ∷ b'c' ∷ b'e'
    ∷ b'C' ∷ b'o' ∷ b'u' ∷ b'n' ∷ b't' ∷ b'I' ∷ b'm' ∷ b'p' ∷ b'l' ∷ []

abbrev pub rt_get_device_count : Bytes
rt_get_device_count =
    b'r' ∷ b't' ∷ b'G' ∷ b'e' ∷ b't' ∷ b'D' ∷ b'e' ∷ b'v' ∷ b'i' ∷ b'c' ∷ b'e' ∷ b'C' ∷ b'o' ∷ b'u'
    ∷ b'n' ∷ b't' ∷ []

abbrev pub aclrt_get_device_info_impl : Bytes
aclrt_get_device_info_impl =
    b'a' ∷ b'c' ∷ b'l' ∷ b'r' ∷ b't' ∷ b'G' ∷ b'e' ∷ b't' ∷ b'D' ∷ b'e' ∷ b'v' ∷ b'i' ∷ b'c' ∷ b'e'
    ∷ b'I' ∷ b'n' ∷ b'f' ∷ b'o' ∷ b'I' ∷ b'm' ∷ b'p' ∷ b'l' ∷ []

abbrev pub rt_get_device_info : Bytes
rt_get_device_info =
    b'r' ∷ b't' ∷ b'G' ∷ b'e' ∷ b't' ∷ b'D' ∷ b'e' ∷ b'v' ∷ b'i' ∷ b'c' ∷ b'e' ∷ b'I' ∷ b'n' ∷ b'f'
    ∷ b'o' ∷ []

abbrev pub aclrt_get_soc_name_impl : Bytes
aclrt_get_soc_name_impl =
    b'a' ∷ b'c' ∷ b'l' ∷ b'r' ∷ b't' ∷ b'G' ∷ b'e' ∷ b't' ∷ b'S' ∷ b'o' ∷ b'c' ∷ b'N' ∷ b'a' ∷ b'm'
    ∷ b'e' ∷ b'I' ∷ b'm' ∷ b'p' ∷ b'l' ∷ []

abbrev pub rt_get_soc_version : Bytes
rt_get_soc_version =
    b'r' ∷ b't' ∷ b'G' ∷ b'e' ∷ b't' ∷ b'S' ∷ b'o' ∷ b'c' ∷ b'V' ∷ b'e' ∷ b'r' ∷ b's' ∷ b'i' ∷ b'o'
    ∷ b'n' ∷ []

-- `GetAclToRuntimeMap`.
unfoldable pub get_acl_to_runtime_map : List (Bytes × List Bytes)
get_acl_to_runtime_map =
    (aclrt_set_device_impl, rt_set_device ∷ [])
    ∷ (aclrt_reset_device_impl, rt_device_reset ∷ [])
    ∷ (aclrt_malloc_impl, rt_malloc ∷ [])
    ∷ (aclrt_free_impl, rt_free ∷ [])
    ∷ (aclrt_memset_impl, rt_memset ∷ [])
    ∷ (aclrt_memcpy_impl, rt_memcpy ∷ [])
    ∷ (aclrt_map_mem_impl, rt_map_mem ∷ [])
    ∷ (aclrt_unmap_mem_impl, rt_unmap_mem ∷ [])
    ∷ (aclrt_ipc_mem_get_export_key_impl, rt_ipc_set_memory_name ∷ [])
    ∷ (aclrt_ipc_mem_import_by_key_impl, rt_ipc_open_memory ∷ [])
    ∷ (aclrt_ipc_mem_close_impl, rt_ipc_destroy_memory_name ∷ rt_ipc_close_memory ∷ [])
    ∷ (aclrt_get_device_impl, rt_get_device ∷ [])
    ∷ (aclrt_create_context_impl, rt_ctx_create_ex ∷ [])
    ∷ (aclrt_query_device_status_impl, rt_device_status_query ∷ [])
    ∷ (aclrt_get_device_count_impl, rt_get_device_count ∷ [])
    ∷ (aclrt_get_device_info_impl, rt_get_device_info ∷ [])
    ∷ (aclrt_get_soc_name_impl, rt_get_soc_version ∷ [])
    ∷ []
