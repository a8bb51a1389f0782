-- ===== src/Cli/Json5.antt =====
-- packages/gkos-cli/src/util/json5.ts: the parser of configuration fragments. It reads UTF-16 code
-- units, and what is left of the text is the source's position. `Number` of a text, the platform's,
-- is a parameter, `none` where it is not finite. What a call leaves is not a structural part of its
-- text, so each nested value costs fuel; the fuel that `parse_json5` gives is always enough.
pub mod Scan
pub mod Grammar
pub mod Total
pub mod Fuel
