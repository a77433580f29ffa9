-- ===== src/Tests/Buffers.antt =====
-- Net/buffer.h at concrete inputs.
use my_moduo.Base.{◌≡◌, refl, List, [], ◌∷◌, ◌++◌, some, arith, codes, copy_to}
use my_moduo.Net.Buffer.Contents.{contents-append, kept}
use my_moduo.Net.Buffer.Valid.{IsValid, Op, appends, retrieves, run, step, run-init-IsValid}
use my_moduo.Net.Buffer.{
  Buffer, init, contents, retrieve, append, ensure_writeable_bytes, find_crlf,
}

-- Sixteen bytes, of which the last four are readable.
abbrev late : Buffer
late = record { bytes = codes "............ab\r\n"; read_index = 12; write_index = 16 }

late-IsValid : IsValid late
late-IsValid = omega arith

-- The same behind the header.
abbrev early : Buffer
early = record { bytes = codes "........ab\r\n...."; read_index = 8; write_index = 12 }

early-IsValid : IsValid early
early-IsValid = omega arith

abbrev ops : List Op
ops = appends (codes "GET") ∷ retrieves 2 ∷ []

abbrev after_ops : Buffer
after_ops = record {
  bytes = codes "GET" ++ (0 ∷ 0 ∷ 0 ∷ 0 ∷ 0 ∷ []);
  read_index = 2;
  write_index = 3;
}

run-ops : run (init 8) ops ≡ some after_ops
unfolding run step init append retrieve ensure_writeable_bytes copy_to
run-ops = refl

run-init-IsValid_example : IsValid after_ops
run-init-IsValid_example = run-init-IsValid 8 ops (omega arith) run-ops

-- Four bytes more find room only by moving the indices, and what was readable is lost.
contents-append_example : contents (append late (codes "wxyz")) ≡ kept late 4 ++ codes "wxyz"
contents-append_example = contents-append {b = late} (codes "wxyz") late-IsValid

kept-late : kept late 4 ≡ codes "...."
kept-late = refl

find_crlf-late : find_crlf late ≡ some 2
unfolding find_crlf
find_crlf-late = refl
