-- ===== src/Install/FileTypes/Laws.antt =====
-- The lookups of file types are inverse to one another.
use coreland_c_string.Base.{◌≡◌, refl, some, Bytes}
use coreland_c_string.Install.Header.{
  FileType, file, character_special, directory, symlink, socket, fifo,
}
use coreland_c_string.Install.FileTypes.{install_file_type_lookup, install_file_type_name_lookup}

-- Every file type has a name in the table, and looking that name up gives the type back.
pub lookup-name_lookup :
    (type : FileType)
    → (name : Bytes) × (install_file_type_name_lookup type ≡ some name)
      × (install_file_type_lookup name ≡ some type)
unfolding install_file_type_lookup install_file_type_name_lookup
lookup-name_lookup file = (_, refl, refl)
lookup-name_lookup character_special = (_, refl, refl)
lookup-name_lookup directory = (_, refl, refl)
lookup-name_lookup symlink = (_, refl, refl)
lookup-name_lookup socket = (_, refl, refl)
lookup-name_lookup fifo = (_, refl, refl)
