-- ===== src/Config/Fields.antt =====
-- config.go: the checks of fields, PDOs and SDO objects.
use otelcol_receiver_canopen.Prelude.{
  contains, ℕ, ◌+◌, ◌-◌, ◌%◌, ◌^◌, String, Bool, true, false, not, ◌||◌, List, [], ◌∷◌, ltb, leb,
  if◌then◌else◌, ◌==◌, nat_eq, string_key,
}
use otelcol_receiver_canopen.Prelude.Int.{ℤ, pos_part, neg_part}
use otelcol_receiver_canopen.Prelude.Maps.{Map}
use otelcol_receiver_canopen.Codec.Types.{
  DataType, bytes, visible_string, valid, Any, unsigned, other_kind,
}
use otelcol_receiver_canopen.Config.Checked.{
  Checked, pass, fail, ◌>>◌, require, each, empty_name, negative_bit_offset, unsupported_type,
  bad_byte_len, unaligned_bytes, metrics_of_bytes, bad_metric_type, bad_attribute, no_fields,
  duplicate_name, bad_cob_id, duplicate_cob_id, bad_node_id,
}
use otelcol_receiver_canopen.Config.Types.{
  MetricType, other_type, FieldConfig, PdoConfig, SdoObjectConfig, is_positive, is_negative,
  is_empty,
}

unfoldable pub validate_metric_type : MetricType → Checked
validate_metric_type (other_type s) = fail bad_metric_type
validate_metric_type _ = pass

-- The `switch` on the dynamic type of a value.
unfoldable pub validate_attribute : Any → Checked
validate_attribute (unsigned v) = require (leb v (2 ^ 63 - 1)) bad_attribute
validate_attribute (other_kind s) = fail bad_attribute
validate_attribute _ = pass

-- Go visits a map in any order; the model in the order of the entries.
unfoldable pub validate_static_attributes : Map String Any → Checked
unfolding validate_attribute
validate_static_attributes attributes =
    each (λ (entry : String × Any). validate_attribute entry.1) attributes

abbrev pub is_byte_type : DataType → Bool
is_byte_type bytes = true
is_byte_type visible_string = true
is_byte_type _ = false

abbrev pub is_aligned : ℤ → Bool
is_aligned z = (pos_part z + neg_part z) % 8 == 0

unfoldable pub validate_byte_type : FieldConfig → Checked
validate_byte_type s = do
  require (is_positive s.byte_len) bad_byte_len
  require (is_aligned s.bit_offset) unaligned_bytes
  require (not s.metrics) metrics_of_bytes

unfoldable pub validate_field : FieldConfig → Checked
unfolding validate_byte_type validate_metric_type validate_static_attributes
validate_field s = do
  require (not (s.name == "")) empty_name
  require (not (is_negative s.bit_offset)) negative_bit_offset
  require (valid s.type) unsupported_type
  (if is_byte_type s.type then validate_byte_type s else pass)
  validate_metric_type s.metric_type
  validate_static_attributes s.attributes

-- The loop over the fields of a PDO, object, message or response, with the names seen.
unfoldable pub validate_fields : List String → List FieldConfig → Checked
validate_fields seen [] = pass
validate_fields seen (s ∷ rest) = do
  validate_field s
  require (not (contains seen s.name)) duplicate_name
  validate_fields (s.name ∷ seen) rest

-- A list of fields that must not be empty.
unfoldable pub validate_field_list : List FieldConfig → Checked
validate_field_list fields = do require (not (is_empty fields)) no_fields; validate_fields [] fields

unfoldable pub validate_pdo : PdoConfig → Checked
validate_pdo p = do
  require (not (p.name == "")) empty_name
  require (not (p.cob_id == 0 || ltb 0x1FFFFFFF p.cob_id)) bad_cob_id
  validate_field_list p.fields

unfoldable pub validate_pdo_loop : List String → List ℕ → List PdoConfig → Checked
validate_pdo_loop seen cob_ids [] = pass
validate_pdo_loop seen cob_ids (p ∷ rest) = do
  validate_pdo p
  require (not (contains seen p.name)) duplicate_name
  require (not (contains cob_ids p.cob_id)) duplicate_cob_id
  validate_pdo_loop (p.name ∷ seen) (p.cob_id ∷ cob_ids) rest

unfoldable pub validate_pdos : List PdoConfig → Checked
validate_pdos pdos = validate_pdo_loop [] [] pdos

unfoldable pub validate_object : SdoObjectConfig → Checked
validate_object s = do
  require (not (ltb s.node_id 1 || ltb 127 s.node_id)) bad_node_id
  validate_field_list s.fields
