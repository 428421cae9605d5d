-- ===== src/Casing/Examples.antt =====
-- src/spooled/utils/casing.py on concrete keys and bodies.
use spooled_sdk_python.Prelude.{codes, ◌≡◌, refl, is_lower, is_digit, lower}
use spooled_sdk_python.Json.{Value, obj, Fields, field, end, str}
use spooled_sdk_python.Casing.{to_snake_case}

acronym : to_snake_case (codes "HTTPServerURL2Go") ≡ codes "http_server_url2_go"
unfolding to_snake_case lower is_lower is_digit
acronym = refl

abbrev template : Value
template = obj (field (codes "userName") (str (codes "{{name}}")) end)

abbrev body : Fields
body = field (codes "queueName") (str (codes "mail")) (field (codes "payloadTemplate") template end)
