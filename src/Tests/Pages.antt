-- ===== src/Tests/Pages.antt =====
-- The theorems of Documents.Reading.Pages at sample data.
use cogno_engram.Prelude.{◌≡◌, refl, true, map, arith}
use cogno_engram.Documents.Reading.{text_chunk}
use cogno_engram.Tests.DocumentSamples.{three_chunks, whole_window}
use cogno_engram.Documents.Reading.Pages.{unread, read_on, read_on-all}

read_on-all_example :
    read_on 4 (λ c. true) whole_window three_chunks
    ≡ map text_chunk (unread (λ c. true) whole_window three_chunks)
read_on-all_example =
    read_on-all 4 (λ c. true) whole_window three_chunks
      (((refl, (refl, tt)), ((refl, tt), (tt, tt)))) (omega arith) (omega arith)
