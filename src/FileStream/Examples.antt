-- ===== src/FileStream/Examples.antt =====
-- FileOStream.cpp: the theorem at an input.
use mac_mini_dump.FileStream.File.{File}

abbrev sevens : File
sevens = record { position = 4; size = 9; content = λ a. 7 }
