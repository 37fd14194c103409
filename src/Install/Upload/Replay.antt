-- ===== src/Install/Upload/Replay.antt =====
-- What a device holds after the calls of an upload: the files, the last one opened first.
use i_phone_loadly.Common.{◌≡◌, refl, Text, List, [], ◌∷◌, ◌++◌}
use i_phone_loadly.Install.Upload.{Bytes, Call, opens, writes}

abbrev pub Files : Type 0
Files = List (Text × Bytes)

-- A write goes to the end of the file that was opened last.
abbrev written : Bytes → Files → Files
written bytes [] = []
written bytes ((path, content) ∷ files) = (path, content ++ bytes) ∷ files

abbrev on_call : Call → Files → Files
on_call (opens path) files = (path, []) ∷ files
on_call (writes bytes) files = written bytes files
on_call _ files = files

unfoldable pub replay : List Call → Files → Files
replay [] files = files
replay (call ∷ calls) files = replay calls (on_call call files)

pub replay-append :
    (calls more : List Call) (files : Files)
    → replay (calls ++ more) files ≡ replay more (replay calls files)
unfolding replay
replay-append [] more files = refl
replay-append (call ∷ calls) more files = replay-append calls more (on_call call files)
