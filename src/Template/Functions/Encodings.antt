-- ===== src/Template/Functions/Encodings.antt =====
-- The functions of the templates that hand their argument on: JSON, base64 and the name of the host.
-- What the packages encoding/json, encoding/base64 and os answer is a parameter.
use confd.Prelude.{Option}
use confd.Std.Text.{Text}
use confd.Std.Result.{Error}

-- `json.Unmarshal` into a variable of a type: what the variable holds after it, with the error.
abbrev pub Unmarshal : Type 0 → Type 0
Unmarshal A = Text → A × Option Error

-- `UnmarshalJsonObject` and `UnmarshalJsonArray`: a value that comes with an error is returned too.
unfoldable pub unmarshal_json_object :
    {Object : Type 0} → Unmarshal Object → Text → Object × Option Error
unmarshal_json_object unmarshal data' = let (ret, e) = unmarshal data' in (ret, e)

unfoldable pub unmarshal_json_array :
    {Array : Type 0} → Unmarshal Array → Text → Array × Option Error
unmarshal_json_array unmarshal data' = let (ret, e) = unmarshal data' in (ret, e)

-- `Base64Encode` and `Base64Decode`
unfoldable pub encode_base64 : (Text → Text) → Text → Text
encode_base64 encode_to_string data' = encode_to_string data'

unfoldable pub decode_base64 : (Text → Text × Option Error) → Text → Text × Option Error
decode_base64 decode_string data' = let (s, e) = decode_string data' in (s, e)

-- `GetHostname`
unfoldable pub hostname : Text × Option Error → Text × Option Error
hostname answer = let (value, e) = answer in (value, e)
