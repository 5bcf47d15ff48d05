-- ===== src/Tests/Served.antt =====
-- The theorems of Documents.Reading.Served at sample data.
use cogno_engram.Prelude.{◌≡◌, refl, true, Option, none, some}
use mathlib.Core.List.{Memᴰ}
use cogno_engram.Text.{codes, strip, is_blank}
use cogno_engram.Errors.{ok}
use cogno_engram.Documents.Rules.{require_profile, text_window}
use cogno_engram.Documents.State.{DocRow, VersionRow, chunks_at}
use cogno_engram.Documents.Reading.{read_served, KbServedText, slice_of, positive}
use cogno_engram.Tests.DocumentSamples.{owner, doc_id, library, whole_window, owner_allowed}
use cogno_engram.Documents.Reading.Served.{IsServed, read_served-IsServed}

profile_allowed : require_profile (codes "reader") ≡ ok tt
unfolding require_profile strip is_blank
profile_allowed = refl

window_allowed : text_window none none 2 ≡ ok whole_window
unfolding text_window
window_allowed = refl

read_served-IsServed_example :
    (shown : Option KbServedText) × (read_served owner doc_id (codes "reader") none 2 library
      ≡ ok shown)
    × ((t : KbServedText)
        → shown ≡ some t
        → (row : DocRow) × (v : VersionRow) × Memᴰ row library.docs
          × (row.id ≡ doc_id)
          × IsServed owner (codes "reader") library row v
          × (t ≡ record {
            document_id = doc_id;
            version = v.version;
            title = row.title;
            pages = positive v.pages;
            slice = slice_of (λ c. true) whole_window (chunks_at doc_id v.version library);
          }))
read_served-IsServed_example =
    read_served-IsServed owner doc_id (codes "reader") none 2 library whole_window owner_allowed
      profile_allowed window_allowed
