-- ===== src/Files.antt =====
-- src/impl/file_util.cpp: text files. The file system is what each path holds, with `none` where it cannot be read;
-- whether a file opens for writing is an argument.
use Prim.Native.String.{String, ◌++◌}
use text.Mathlib.Text.{◌==◌}
use ouster_ros.Prelude.{Bool, true, false, Option, none, some, if◌then◌else◌}

abbrev pub FileSystem : Type 0
FileSystem = String → Option String

unfoldable pub read_text_file : FileSystem → String → String
read_text_file files file_path = elim (files file_path) [ none ↦ "" | some text ↦ text ]

-- The files after the call, and whether the text was written; `std::endl` ends it.
unfoldable pub write_text_to_file : Bool → String → String → FileSystem → FileSystem × Bool
write_text_to_file is_open file_path text files =
    if is_open
    then (λ path. if path == file_path then some (text ++ "\n") else files path, true)
    else (files, false)
