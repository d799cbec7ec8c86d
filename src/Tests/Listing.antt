-- ===== src/Tests/Listing.antt =====
-- A list of three items at the addresses 10, 20 and 30, of the sizes 7, 3 and 5.
use rpi_os_cfs_ext.Base.{ℕ, ◌≡◌, refl, arith, some, ◌==◌, if◌then◌else◌, List, [], ◌∷◌}
use rpi_os_cfs_ext.Base.Bytes.{zeros}
use rpi_os_cfs_ext.Shell.List.{ShellEntry, EntryList, Items, add_entry_list}
use rpi_os_cfs_ext.Shell.List.Contents.{IsSegment, Holds}
use rpi_os_cfs_ext.Shell.List.Add.{Added, add_entry_list-Added}
use rpi_os_cfs_ext.Shell.Sort.{size_sort}
use rpi_os_cfs_ext.Shell.Sort.Refine.{SortedBySize, size_sort-SortedBySize}

abbrev sized : ℕ → ShellEntry
sized n = record {
  name = zeros;
  is_directory = 0;
  size = n;
  permition = 0x1a4;
  pdata = record { entry = zeros; location = record { group = 0; block = 0; offset = 0 } };
}

abbrev three : Items
three a =
    if a == 10
    then record { entry = sized 7; next = 20 }
    else if a == 20
    then record { entry = sized 3; next = 30 }
    else record { entry = sized 5; next = 0 }

abbrev list : EntryList
list = record { count = 3; first = 10; last = 30 }

abbrev addresses : List ℕ
addresses = 10 ∷ 20 ∷ 30 ∷ []

three-Holds : Holds three list addresses
unfolding IsSegment
three-Holds = record {
  count_items = refl;
  links = (refl, omega arith, (refl, omega arith, (refl, omega arith, refl)));
  last_item = refl;
  distinct = λ p. ground arith;
}

size_sort-SortedBySize_example :
    (s' : Items) × (list' : EntryList) × (size_sort list three ≡ some (list', s'))
    × SortedBySize three s' list' addresses
size_sort-SortedBySize_example =
    size_sort-SortedBySize three list addresses three-Holds (omega arith)

add_entry_list-Added_example :
    (s' : Items) × (list' : EntryList) × (add_entry_list list 40 three ≡ some (list', s'))
    × Added three s' list' addresses 40
add_entry_list-Added_example =
    add_entry_list-Added three 40 (omega arith) list (omega arith) addresses three-Holds refl
