-- ===== src/HookPipe/FieldReads.antt =====
-- src/hook/pipe_client: the fields that `parse_found_hook_args` takes out of the image that
-- `serialize_raw_hook_param` makes, one by one.
use anemone_rs.Base.{◌<◌, true, ◌≡◌, refl, length, map, all, ltb}
use anemone_rs.HookPipe.Bytes.{
  to_le, read_u32, read_u64, read_i16, read_i32, read_u8_array, read_u16_array, of_signed,
  unit_bytes,
}
use anemone_rs.HookPipe.Layout.{RawHookParam, HookLayout}
use anemone_rs.HookPipe.Command.{serialize_raw_hook_param}
use anemone_rs.HookPipe.Fields.{in_order}
use anemone_rs.HookPipe.Written.{wire_field, hook_wires, serialize_raw_hook_param-held}
use anemone_rs.HookPipe.Reads.{
  signed_fits, u64_held, u32_held, i32_held, i16_held, u8_array_held, u16_array_held,
}

-- The values of a hook fit in the types of their fields.
pub record ParamFits (at : HookLayout) (v : RawHookParam) : Type 0 where
  pub address_fits : v.address < 18446744073709551616
  pub offset_fits : signed_fits 2147483648 v.offset ≡ true
  pub index_fits : signed_fits 2147483648 v.index ≡ true
  pub split_fits : signed_fits 2147483648 v.split ≡ true
  pub split_index_fits : signed_fits 2147483648 v.split_index ≡ true
  pub module_units_fits :
      (length v.module_units ≡ at.module_len) × (all (λ unit. ltb unit 65536) v.module_units ≡ true)
  pub function_fits : length v.function ≡ at.function_len
  pub hook_type_fits : v.hook_type < 18446744073709551616
  pub codepage_fits : v.codepage < 4294967296
  pub length_offset_fits : signed_fits 32768 v.length_offset ≡ true
  pub padding_fits : v.padding < 18446744073709551616
  pub user_value_fits : v.user_value < 18446744073709551616
  pub line_separator_fits : v.line_separator < 18446744073709551616
  pub name_fits : length v.name ≡ at.name_len
  pub hookcode_fits :
      (length v.hookcode ≡ at.hookcode_len) × (all (λ unit. ltb unit 65536) v.hookcode ≡ true)
  pub detected_codepage_fits : v.detected_codepage < 4294967296
  pub emu_addr_fits : v.emu_addr < 4294967296

pub address_read :
    (at : HookLayout) (v : RawHookParam)
    → ParamFits at v
    → in_order 0 at.size (map wire_field (hook_wires at v)) ≡ true
    → read_u64 (serialize_raw_hook_param at v) at.at_address ≡ v.address
unfolding hook_wires wire_field
address_read at v fits order =
    u64_held (serialize_raw_hook_param at v) at.at_address v.address fits.address_fits
      (serialize_raw_hook_param-held 0 at v (at.at_address, to_le 8 v.address) order refl)

pub offset_read :
    (at : HookLayout) (v : RawHookParam)
    → ParamFits at v
    → in_order 0 at.size (map wire_field (hook_wires at v)) ≡ true
    → read_i32 (serialize_raw_hook_param at v) at.at_offset ≡ v.offset
unfolding hook_wires wire_field
offset_read at v fits order =
    i32_held (serialize_raw_hook_param at v) at.at_offset v.offset fits.offset_fits (
      serialize_raw_hook_param-held 1 at v (at.at_offset, to_le 4 (of_signed 2147483648 v.offset))
        order refl)

pub index_read :
    (at : HookLayout) (v : RawHookParam)
    → ParamFits at v
    → in_order 0 at.size (map wire_field (hook_wires at v)) ≡ true
    → read_i32 (serialize_raw_hook_param at v) at.at_index ≡ v.index
unfolding hook_wires wire_field
index_read at v fits order =
    i32_held (serialize_raw_hook_param at v) at.at_index v.index fits.index_fits (
      serialize_raw_hook_param-held 2 at v (at.at_index, to_le 4 (of_signed 2147483648 v.index))
        order refl)

pub split_read :
    (at : HookLayout) (v : RawHookParam)
    → ParamFits at v
    → in_order 0 at.size (map wire_field (hook_wires at v)) ≡ true
    → read_i32 (serialize_raw_hook_param at v) at.at_split ≡ v.split
unfolding hook_wires wire_field
split_read at v fits order =
    i32_held (serialize_raw_hook_param at v) at.at_split v.split fits.split_fits (
      serialize_raw_hook_param-held 3 at v (at.at_split, to_le 4 (of_signed 2147483648 v.split))
        order refl)

pub split_index_read :
    (at : HookLayout) (v : RawHookParam)
    → ParamFits at v
    → in_order 0 at.size (map wire_field (hook_wires at v)) ≡ true
    → read_i32 (serialize_raw_hook_param at v) at.at_split_index ≡ v.split_index
unfolding hook_wires wire_field
split_index_read at v fits order =
    i32_held (serialize_raw_hook_param at v) at.at_split_index v.split_index fits.split_index_fits (
      serialize_raw_hook_param-held 4 at v
        (at.at_split_index, to_le 4 (of_signed 2147483648 v.split_index)) order refl)

pub module_units_read :
    (at : HookLayout) (v : RawHookParam)
    → ParamFits at v
    → in_order 0 at.size (map wire_field (hook_wires at v)) ≡ true
    → read_u16_array at.module_len (serialize_raw_hook_param at v) at.at_module ≡ v.module_units
unfolding hook_wires wire_field
module_units_read at v fits order =
    u16_array_held at.module_len (serialize_raw_hook_param at v) at.at_module v.module_units
      ((fits.module_units_fits).0) ((fits.module_units_fits).1)
      (serialize_raw_hook_param-held 5 at v (at.at_module, unit_bytes v.module_units) order refl)

pub function_read :
    (at : HookLayout) (v : RawHookParam)
    → ParamFits at v
    → in_order 0 at.size (map wire_field (hook_wires at v)) ≡ true
    → read_u8_array at.function_len (serialize_raw_hook_param at v) at.at_function ≡ v.function
unfolding hook_wires wire_field
function_read at v fits order =
    u8_array_held at.function_len (serialize_raw_hook_param at v) at.at_function v.function
      fits.function_fits
      (serialize_raw_hook_param-held 6 at v (at.at_function, v.function) order refl)

pub hook_type_read :
    (at : HookLayout) (v : RawHookParam)
    → ParamFits at v
    → in_order 0 at.size (map wire_field (hook_wires at v)) ≡ true
    → read_u64 (serialize_raw_hook_param at v) at.at_hook_type ≡ v.hook_type
unfolding hook_wires wire_field
hook_type_read at v fits order =
    u64_held (serialize_raw_hook_param at v) at.at_hook_type v.hook_type fits.hook_type_fits
      (serialize_raw_hook_param-held 7 at v (at.at_hook_type, to_le 8 v.hook_type) order refl)

pub codepage_read :
    (at : HookLayout) (v : RawHookParam)
    → ParamFits at v
    → in_order 0 at.size (map wire_field (hook_wires at v)) ≡ true
    → read_u32 (serialize_raw_hook_param at v) at.at_codepage ≡ v.codepage
unfolding hook_wires wire_field
codepage_read at v fits order =
    u32_held (serialize_raw_hook_param at v) at.at_codepage v.codepage fits.codepage_fits
      (serialize_raw_hook_param-held 8 at v (at.at_codepage, to_le 4 v.codepage) order refl)

pub length_offset_read :
    (at : HookLayout) (v : RawHookParam)
    → ParamFits at v
    → in_order 0 at.size (map wire_field (hook_wires at v)) ≡ true
    → read_i16 (serialize_raw_hook_param at v) at.at_length_offset ≡ v.length_offset
unfolding hook_wires wire_field
length_offset_read at v fits order =
    i16_held (serialize_raw_hook_param at v) at.at_length_offset v.length_offset
      fits.length_offset_fits
      (serialize_raw_hook_param-held 9 at v
        (at.at_length_offset, to_le 2 (of_signed 32768 v.length_offset)) order refl)

pub padding_read :
    (at : HookLayout) (v : RawHookParam)
    → ParamFits at v
    → in_order 0 at.size (map wire_field (hook_wires at v)) ≡ true
    → read_u64 (serialize_raw_hook_param at v) at.at_padding ≡ v.padding
unfolding hook_wires wire_field
padding_read at v fits order =
    u64_held (serialize_raw_hook_param at v) at.at_padding v.padding fits.padding_fits
      (serialize_raw_hook_param-held 10 at v (at.at_padding, to_le 8 v.padding) order refl)

pub user_value_read :
    (at : HookLayout) (v : RawHookParam)
    → ParamFits at v
    → in_order 0 at.size (map wire_field (hook_wires at v)) ≡ true
    → read_u64 (serialize_raw_hook_param at v) at.at_user_value ≡ v.user_value
unfolding hook_wires wire_field
user_value_read at v fits order =
    u64_held (serialize_raw_hook_param at v) at.at_user_value v.user_value fits.user_value_fits
      (serialize_raw_hook_param-held 11 at v (at.at_user_value, to_le 8 v.user_value) order refl)

pub line_separator_read :
    (at : HookLayout) (v : RawHookParam)
    → ParamFits at v
    → in_order 0 at.size (map wire_field (hook_wires at v)) ≡ true
    → read_u64 (serialize_raw_hook_param at v) at.at_line_separator ≡ v.line_separator
unfolding hook_wires wire_field
line_separator_read at v fits order =
    u64_held (serialize_raw_hook_param at v) at.at_line_separator v.line_separator
      fits.line_separator_fits
      (serialize_raw_hook_param-held 16 at v (at.at_line_separator, to_le 8 v.line_separator) order
        refl)

pub name_read :
    (at : HookLayout) (v : RawHookParam)
    → ParamFits at v
    → in_order 0 at.size (map wire_field (hook_wires at v)) ≡ true
    → read_u8_array at.name_len (serialize_raw_hook_param at v) at.at_name ≡ v.name
unfolding hook_wires wire_field
name_read at v fits order =
    u8_array_held at.name_len (serialize_raw_hook_param at v) at.at_name v.name fits.name_fits
      (serialize_raw_hook_param-held 17 at v (at.at_name, v.name) order refl)

pub hookcode_read :
    (at : HookLayout) (v : RawHookParam)
    → ParamFits at v
    → in_order 0 at.size (map wire_field (hook_wires at v)) ≡ true
    → read_u16_array at.hookcode_len (serialize_raw_hook_param at v) at.at_hookcode ≡ v.hookcode
unfolding hook_wires wire_field
hookcode_read at v fits order =
    u16_array_held at.hookcode_len (serialize_raw_hook_param at v) at.at_hookcode v.hookcode
      ((fits.hookcode_fits).0) ((fits.hookcode_fits).1)
      (serialize_raw_hook_param-held 18 at v (at.at_hookcode, unit_bytes v.hookcode) order refl)

pub detected_codepage_read :
    (at : HookLayout) (v : RawHookParam)
    → ParamFits at v
    → in_order 0 at.size (map wire_field (hook_wires at v)) ≡ true
    → read_u32 (serialize_raw_hook_param at v) at.at_detected_codepage ≡ v.detected_codepage
unfolding hook_wires wire_field
detected_codepage_read at v fits order =
    u32_held (serialize_raw_hook_param at v) at.at_detected_codepage v.detected_codepage
      fits.detected_codepage_fits
      (serialize_raw_hook_param-held 19 at v (at.at_detected_codepage, to_le 4 v.detected_codepage)
        order refl)

pub emu_addr_read :
    (at : HookLayout) (v : RawHookParam)
    → ParamFits at v
    → in_order 0 at.size (map wire_field (hook_wires at v)) ≡ true
    → read_u32 (serialize_raw_hook_param at v) at.at_emu_addr ≡ v.emu_addr
unfolding hook_wires wire_field
emu_addr_read at v fits order =
    u32_held (serialize_raw_hook_param at v) at.at_emu_addr v.emu_addr fits.emu_addr_fits
      (serialize_raw_hook_param-held 20 at v (at.at_emu_addr, to_le 4 v.emu_addr) order refl)
