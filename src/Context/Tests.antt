-- ===== src/Context/Tests.antt =====
-- Attachments, and the theorems about them at concrete inputs.
use herdr_web_broker.Common.{false, some, none, [], ◌∷◌}
use herdr_web_broker.Context.{Content, Store, put_context, update_context, delete_context}
use herdr_web_broker.Context.Named.{IsConfined, operations-IsConfined}

abbrev note : Content
note = record { text = "read me"; size = 11000; is_binary = false }

abbrev store : Store
store = record { files = ("a.md", note) ∷ ("b.md", note) ∷ []; meta = [] }

operations-IsConfined_example :
    IsConfined "a.md" "b.md" store (put_context "a.md" note none (some false) none "t1" store)
    × IsConfined "a.md" "b.md" store (update_context "a.md" (some false) none "t1" store)
    × IsConfined "a.md" "b.md" store (delete_context "a.md" store)
operations-IsConfined_example =
    operations-IsConfined "a.md" "b.md" store note none (some false) none "t1"
