-- ===== src/Tests/Pages.antt =====
-- Runs of the cursors between pages in crates/gateway/src/operations/admin.rs at concrete inputs.
use nvidia_build_lb.Prelude.{ℕ, ◌+◌, ◌<◌, List, [], ◌∷◌, some, length, ◌≡◌, refl, arith}
use nvidia_build_lb.Pages.{Codec, PageWindow, window, list_window, paginate, page_items, cursor_to}
use nvidia_build_lb.Pages.Cursors.{list_window-paginate}

abbrev plain_codec : Codec
plain_codec = record { encode = λ bytes. bytes; decode = λ bytes. some bytes }

abbrev five_items : List ℕ
five_items = 10 ∷ 20 ∷ 30 ∷ 40 ∷ 50 ∷ []

abbrev second_page : PageWindow
second_page = record { limit = 2; offset = 2 }

pages_on : (paginate plain_codec five_items second_page).1 ≡ some (cursor_to plain_codec 4)
unfolding paginate
pages_on = refl

list_window-paginate_example :
    (list_window plain_codec (record { limit = some 2; before = some (cursor_to plain_codec 4) })
      ≡ window (record { limit = 2; offset = 2 + length (page_items five_items second_page) }))
    × (2 + length (page_items five_items second_page) < length five_items)
list_window-paginate_example =
    list_window-paginate plain_codec five_items second_page (cursor_to plain_codec 4)
      (λ bytes. refl) (omega arith) (omega arith) (omega arith) pages_on
