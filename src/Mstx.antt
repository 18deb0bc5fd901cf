-- ===== src/Mstx.antt =====
-- csrc/runtime/inject_helpers/MsTx.h and MsTx.cpp: what the tool keeps of the program's mstx calls.
-- This file has the state; the children have the ranges, the domains and heaps, and the regions.
-- A pointer is its address, with 0 for null. `std::unique_ptr` members are the addresses of what
-- they own; an operation that makes an object takes the address that `new` returns as an argument.
-- Every operation holds the mutex while it uses the state, so each is one step. A thread is a number.
pub mod Ranges
pub mod Heaps
pub mod Regions
mod Tests
use msopcom.Prelude.{ℕ, Bool, true, false, not, ◌&&◌, List, [], if◌then◌else◌}
use msopcom.Wire.{Bytes}

-- `MstxMemVirtualRangeDesc`.
pub record VirtualRangeDesc : Type 0 where
  pub device_id : ℕ
  pub ptr : ℕ
  pub size : ℕ

-- `MstxMemHeapRangeDesc`.
pub record HeapRangeDesc : Type 0 where
  pub heap_usage : ℕ
  pub mem_type : ℕ
  pub range_desc : VirtualRangeDesc

pub record MsTx : Type 0 where
  pub is_mstx_init : Bool
  pub is_mstx_enabled_message_init : Bool
  pub enabled_message_list : List Bytes
  pub usage_count : List (ℕ × List (Bytes × ℕ))
  pub active_messages : List (ℕ × Bytes)
  pub invalid_range_ids : List ℕ
  pub range_id : ℕ
  pub name_to_domain : List (Bytes × ℕ)
  pub domain_to_name : List (ℕ × Bytes)
  pub heap_descs : List ((ℕ × ℕ) × HeapRangeDesc)
  pub domain_heaps : List (ℕ × List ℕ)
  pub domain_regions : List (ℕ × List ℕ)
  pub region_descs : List (ℕ × VirtualRangeDesc)

-- `MstxAttrReset`. The set of the invalid ranges' ids is left as it is.
pub mstx_attr_reset : Bool → MsTx → MsTx
mstx_attr_reset force s = if s.is_mstx_init && not force then s else record s {
  enabled_message_list = [];
  usage_count = [];
  active_messages = [];
  range_id = 0;
  name_to_domain = [];
  domain_to_name = [];
  heap_descs = [];
  domain_heaps = [];
  domain_regions = [];
  region_descs = [];
  is_mstx_enabled_message_init = false;
  is_mstx_init = true;
}
