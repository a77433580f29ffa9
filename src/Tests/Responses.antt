-- ===== src/Tests/Responses.antt =====
-- Http/httpresponse.cpp at a concrete input.
use mathlib.Core.Option
use my_moduo.Base.{◌≡◌, ◌∷◌, ◌++◌, false, some, arith, codes, to_decimal, of_decimal}
use my_moduo.Http.Parser.Texts.{fields_text}
use my_moduo.Http.Request.{Fields, find}
use my_moduo.Http.Response.Render.{append_to_buffer-fields}
use my_moduo.Http.Response.{HttpResponse, init, append_to_buffer}
use my_moduo.Net.Buffer.Fresh.{init-IsFresh}
use my_moduo.Net.Buffer.{Buffer, contents, initial_size}
use my_moduo.Net.Buffer

abbrev hello : HttpResponse
hello = record (init false) { status_message = codes "OK"; body = codes "hello" }

abbrev local_buffer : Buffer
local_buffer = Buffer.init initial_size

append_to_buffer-fields_example :
    (fields : Fields) × (contents (append_to_buffer hello local_buffer)
      ≡ contents local_buffer
        ++ (codes "HTTP/1.1 "
            ++ (to_decimal 200
                ++ (b' ' ∷ (codes "OK" ++ (b'\r' ∷ b'\n' ∷ fields_text fields (codes "hello")))))))
    × (find (codes "Connection") fields ≡ some (codes "Keep-Alive"))
    × (Option.map of_decimal (find (codes "Content-length") fields) ≡ some 5)
    × (find (codes "Content-type") fields ≡ some (codes "text/html"))
append_to_buffer-fields_example =
    append_to_buffer-fields hello {b = local_buffer} (init-IsFresh initial_size (omega arith))
