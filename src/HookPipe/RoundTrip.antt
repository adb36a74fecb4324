-- ===== src/HookPipe/RoundTrip.antt =====
-- src/hook/pipe_client: the fields that `parse_found_hook_args` takes out of the image that
-- `serialize_raw_hook_param` makes.
use anemone_rs.Base.{ℕ, ◌/◌, true, false, some, List, [], ◌∷◌, ◌≡◌, refl, arith, length, map, ltb}
use anemone_rs.HookPipe.Layout.{RawHookParam, HookLayout}
use anemone_rs.HookPipe.Command.{serialize_raw_hook_param}
use anemone_rs.HookPipe.Fields.{in_order}
use anemone_rs.HookPipe.Written.{wire_field, hook_wires, length-serialize_raw_hook_param}
use anemone_rs.HookPipe.Notification.{hook_param_of, parse_found_hook_args, read_fixed_utf16}
use anemone_rs.HookPipe.FieldReads.{
  ParamFits, address_read, offset_read, index_read, split_read, split_index_read, module_units_read,
  function_read, hook_type_read, codepage_read, length_offset_read, padding_read, user_value_read,
  line_separator_read, name_read, hookcode_read, detected_codepage_read, emu_addr_read,
}

-- The default, with the fields of the hook that mean something in another process.
unfoldable pub carried : RawHookParam → RawHookParam → RawHookParam
carried default_param v = record default_param {
  address = v.address;
  offset = v.offset;
  index = v.index;
  split = v.split;
  split_index = v.split_index;
  module_units = v.module_units;
  function = v.function;
  hook_type = v.hook_type;
  codepage = v.codepage;
  length_offset = v.length_offset;
  padding = v.padding;
  user_value = v.user_value;
  line_separator = v.line_separator;
  name = v.name;
  hookcode = v.hookcode;
  detected_codepage = v.detected_codepage;
  emu_addr = v.emu_addr;
}

hook_param_of-serialize :
    (at : HookLayout) (default_param v : RawHookParam)
    → ParamFits at v
    → in_order 0 at.size (map wire_field (hook_wires at v)) ≡ true
    → hook_param_of at default_param (serialize_raw_hook_param at v) ≡ carried default_param v
unfolding hook_param_of carried
hook_param_of-serialize at default_param v fits order =
    rw
      (
        address_read at v fits order,
        offset_read at v fits order,
        index_read at v fits order,
        split_read at v fits order,
        split_index_read at v fits order,
        module_units_read at v fits order,
        function_read at v fits order,
        hook_type_read at v fits order,
        codepage_read at v fits order,
        length_offset_read at v fits order,
        padding_read at v fits order,
        user_value_read at v fits order,
        line_separator_read at v fits order,
        name_read at v fits order,
        hookcode_read at v fits order,
        detected_codepage_read at v fits order,
        emu_addr_read at v fits order,
      )
      refl

-- The image of a hook that fits its fields, which stand in order, is read as the hook itself: of the
-- pointers and of `jittype` the default is kept.
pub parse_found_hook_args-serialize :
    (at : HookLayout) (default_param v : RawHookParam) (text : List ℕ)
    → ParamFits at v
    → in_order 0 at.size (map wire_field (hook_wires at v)) ≡ true
    → parse_found_hook_args at default_param (serialize_raw_hook_param at v ∷ text ∷ [])
      ≡ some (record {
        hook_type_flags = v.hook_type;
        hook_address = v.address;
        hook_param = carried default_param v;
        text = read_fixed_utf16 text 0 (length text / 2);
      })
unfolding parse_found_hook_args carried
parse_found_hook_args-serialize at default_param v text fits order =
    let long : ltb (length (serialize_raw_hook_param at v)) at.size ≡ false =
      ground (arith, length-serialize_raw_hook_param at v order) in
    rw (long, hook_param_of-serialize at default_param v fits order) refl
