-- ===== src/HookPipe/Layout.antt =====
-- src/hook/pipe_client: what the messages take from the hooking library, which is not part of the
-- repository: the places of the fields of its structs and the numbers of its calls.
use anemone_rs.Base.{ℕ, ℤ, List}

-- `RawHookParam`; a pointer is the number that stands for it.
pub record RawHookParam : Type 0 where
  pub address : ℕ
  pub offset : ℤ
  pub index : ℤ
  pub split : ℤ
  pub split_index : ℤ
  pub module_units : List ℕ
  pub function : List ℕ
  pub hook_type : ℕ
  pub codepage : ℕ
  pub length_offset : ℤ
  pub padding : ℕ
  pub user_value : ℕ
  pub text_fun : ℕ
  pub filter_fun : ℕ
  pub embed_fun : ℕ
  pub embed_hook_font : ℕ
  pub line_separator : ℕ
  pub name : List ℕ
  pub hookcode : List ℕ
  pub detected_codepage : ℕ
  pub emu_addr : ℕ
  pub jittype : ℕ

-- `offset_of` for each field, `size_of`, and the lengths of the arrays.
pub record HookLayout : Type 0 where
  pub size : ℕ
  pub at_address : ℕ
  pub at_offset : ℕ
  pub at_index : ℕ
  pub at_split : ℕ
  pub at_split_index : ℕ
  pub at_module : ℕ
  pub at_function : ℕ
  pub at_hook_type : ℕ
  pub at_codepage : ℕ
  pub at_length_offset : ℕ
  pub at_padding : ℕ
  pub at_user_value : ℕ
  pub at_text_fun : ℕ
  pub at_filter_fun : ℕ
  pub at_embed_fun : ℕ
  pub at_embed_hook_font : ℕ
  pub at_line_separator : ℕ
  pub at_name : ℕ
  pub at_hookcode : ℕ
  pub at_detected_codepage : ℕ
  pub at_emu_addr : ℕ
  pub at_jittype : ℕ
  pub module_len : ℕ
  pub function_len : ℕ
  pub name_len : ℕ
  pub hookcode_len : ℕ

-- `SearchParam`.
pub record SearchParam : Type 0 where
  pub pattern : List ℕ
  pub address_method : ℤ
  pub search_method : ℤ
  pub search_length : ℤ
  pub offset : ℤ
  pub search_time_ms : ℤ
  pub max_records : ℤ
  pub codepage : ℤ
  pub padding : ℕ
  pub min_address : ℕ
  pub max_address : ℕ
  pub boundary_module : List ℕ
  pub export_module : List ℕ
  pub text_units : List ℕ
  pub is_jit_hook : ℕ
  pub share_mem_name : List ℕ
  pub share_mem_size : ℕ

pub record SearchLayout : Type 0 where
  pub size : ℕ
  pub pattern_size : ℕ
  pub at_pattern : ℕ
  pub at_address_method : ℕ
  pub at_search_method : ℕ
  pub at_length : ℕ
  pub at_offset : ℕ
  pub at_search_time_ms : ℕ
  pub at_max_records : ℕ
  pub at_codepage : ℕ
  pub at_padding : ℕ
  pub at_min_address : ℕ
  pub at_max_address : ℕ
  pub at_boundary_module : ℕ
  pub at_export_module : ℕ
  pub at_text : ℕ
  pub at_is_jit_hook : ℕ
  pub at_share_mem_name : ℕ
  pub at_share_mem_size : ℕ

-- `TextOutputHeader` and `ThreadParam`.
pub record TextLayout : Type 0 where
  pub header_len : ℕ
  pub at_tp : ℕ
  pub at_hp : ℕ
  pub at_kind : ℕ
  pub at_addr : ℕ
  pub at_ctx : ℕ
  pub at_ctx2 : ℕ

-- `rpc_id`, `HostInfo::Console` and the size of `RpcHeader`.
pub record RpcNames : Type 0 where
  pub header_size : ℕ
  pub output_text : ℕ
  pub notify_text : ℕ
  pub notify_text_w : ℕ
  pub notify_hook_found : ℕ
  pub notify_hook_removed : ℕ
  pub notify_hook_inserting : ℕ
  pub notify_engine_detected : ℕ
  pub console : ℕ
