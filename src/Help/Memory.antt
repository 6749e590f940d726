-- ===== src/Help/Memory.antt =====
-- sw/examples/mcp/rpi_c/command_memory.c: the help functions and their texts.
use cpc_cplink.Prelude.{ℕ, Bool, List, [], ◌∷◌}
use cpc_cplink.Prelude.Text.{codes}
use cpc_cplink.Queue.{Queue}
use cpc_cplink.Help.{write_out_help_text_array}

abbrev pub create_alloc_text : List (List ℕ)
create_alloc_text =
    codes "\rCALLOC\r\r"
    ∷ codes "Function: API call that Creates an ALLOCation of memory on the pi.\r\r"
    ∷ codes "Format: CALLOC NUM_PAGES PAGE_SIZE\r\r"
    ∷ codes "  Where CALLOC is 1 byte value 21\r"
    ∷ codes "  Where NUM_PAGES is 2 bytes (lo/high) value 1 to 9999\r"
    ∷ codes "  Where PAGE_SIZE is 1 bytes value 1 to 32 (in KB)\r\r"
    ∷ codes "  Example 21 03 00 08 which is allocate 3 pages of 8KB\r\r"
    ∷ codes "Return: CALLOC ALLOC_ID ERROR_NUM\r"
    ∷ codes "  Where CALLOC is 1 byte value 21\r"
    ∷ codes "  Where ALLOC_ID is 1 byte 0 to 20, 0 indicating an error\r"
    ∷ codes "  Where ERROR_NUM is 1 byte, 0 no error, 1 invalid params, 2 pi memory alloc failed\r"
    ∷ codes "  Example 21 01 00  allocation 01 was successful\r"
    ∷ codes "  Example 21 00 02 failed to allocate memory on pi\r\n"
    ∷ []

unfoldable pub command_create_alloc_help : Queue → Bool × Queue
command_create_alloc_help out_queue = write_out_help_text_array out_queue create_alloc_text

abbrev pub free_alloc_text : List (List ℕ)
free_alloc_text =
    codes "\rFALLOC\r\r"
    ∷ codes "Function: API call that frees an ALLOCation of memory on the pi.\r\r"
    ∷ codes "Format: FALLOC ALLOC_ID\r\r"
    ∷ codes "  Where FALLOC is 1 byte value 22\r"
    ∷ codes "  Where ALLOC_ID is 1 bytes value 1 to 20\r\r"
    ∷ codes "  Example 22 01 which is free allocation_id 1\r\r"
    ∷ codes "Return: FALLOC ALLOC_ID ERROR_NUM\r"
    ∷ codes "  Where FALLOC is 1 byte value 22\r"
    ∷ codes "  Where ALLOC_ID is 1 byte 0 to 20, 0 indicating an error, 1 to 20 alloc freed\r"
    ∷ codes "  Where ERROR_NUM is 1 byte, 0 no error, 1 invalid params\r"
    ∷ codes "  Example 22 01 00  allocation 01 was successful freed\r"
    ∷ codes "  Example 22 00 01 invalid parameters (allocation_id)\r\n"
    ∷ []

unfoldable pub command_free_alloc_help : Queue → Bool × Queue
command_free_alloc_help out_queue = write_out_help_text_array out_queue free_alloc_text

abbrev pub retrieve_alloc_text : List (List ℕ)
retrieve_alloc_text =
    codes "\rRALLOC\r\r"
    ∷ codes
        "Function: API call that retrieves a page of data from the ALLOCation of memory on the pi.\r\r"
    ∷ codes "Format: RALLOC ALLOC_ID PAGE_NUMBER\r\r"
    ∷ codes "  Where RALLOC is 1 byte value 23\r"
    ∷ codes "  Where ALLOC_ID is 1 bytes value 1 to 20\r"
    ∷ codes "  Where PAGE_NUMBER is 2 bytes (lo/hi) value 0 to 9999\r\r"
    ∷ codes "  Example 23 01 04 00 which is retrieve page 04 of alloc_id 01 \r\r"
    ∷ codes "Return: RALLOC ALLOC_ID PAGE_NUMBER ERROR_ID\r"
    ∷ codes "  Where RALLOC is 1 byte value 23\r"
    ∷ codes
        "  Where ALLOC_ID is 1 byte 0 to 20, 0 indicating an error, 1 to 20 alloc_id requested\r"
    ∷ codes "  Where PAGE_NUMBER is 2 bytes (lo/hi) of page requested\r"
    ∷ codes "  Where ERROR_NUM is 1 byte, 0 no error, 1 invalid params\r"
    ∷ codes "  Example 23 01 04 00 00  retrieved alloc_id 01, page 04 with no errors\r"
    ∷ codes "  The next packet will be a BinaryData packet containing the data requested.\r\n"
    ∷ []

unfoldable pub command_retrieve_alloc_help : Queue → Bool × Queue
command_retrieve_alloc_help out_queue = write_out_help_text_array out_queue retrieve_alloc_text

abbrev pub store_alloc_text : List (List ℕ)
store_alloc_text =
    codes "\rSALLOC\r\r"
    ∷ codes
        "Function: API call that stores a page of data from CPC to the ALLOCation of memory on the pi.\r\r"
    ∷ codes "Format: SALLOC ALLOC_ID PAGE_NUMBER\r\r"
    ∷ codes "  Where SALLOC is 1 byte value 24\r"
    ∷ codes "  Where ALLOC_ID is 1 bytes value 1 to 20\r"
    ∷ codes "  Where PAGE_NUMBER is 2 bytes (lo/hi) value 0 to 9999\r\r"
    ∷ codes "  Example 24 01 04 00 which is store page 04 in alloc_id 01 \r"
    ∷ codes
        "  The BinaryData to store is expected in the following BinaryData packet following this command.\r\rReturn: SALLOC ALLOC_ID PAGE_NUMBER ERROR_ID\r"
    ∷ codes "  Where SALLOC is 1 byte value 24\r"
    ∷ codes
        "  Where ALLOC_ID is 1 byte 0 to 20, 0 indicating an error, 1 to 20 alloc_id requested\r"
    ∷ codes "  Where PAGE_NUMBER is 2 bytes (lo/hi) of page requested\r"
    ∷ codes "  Where ERROR_NUM is 1 byte, 0 no error, 1 invalid params\r"
    ∷ codes "  Example 24 01 04 00 00  stored alloc_id 01, page 04 with no errors\r\n"
    ∷ []

unfoldable pub command_store_alloc_help : Queue → Bool × Queue
command_store_alloc_help out_queue = write_out_help_text_array out_queue store_alloc_text

abbrev pub insert_alloc_text : List (List ℕ)
insert_alloc_text =
    codes "\rIALLOC\r\r"
    ∷ codes
        "Function: API call that inserts a chunk of data into the memory allocation on the pi.\r\r"
    ∷ codes "Format: IALLOC ALLOC_ID INSERT_AT INSERT_LENGTH \r\r"
    ∷ codes "  Where IALLOC is 1 byte value 25\r"
    ∷ codes "  Where ALLOC_ID is 1 bytes value 1 to 20\r"
    ∷ codes
        "  Where INSERT_AT is 4 bytes format high16bit(lo/high) low16bit(lo/high) range 0 to sizeof(int)\r"
    ∷ codes
        "  Where INSERT_LENGTH is 4 bytes format high16bit(lo/high) low16bit(lo/high) range 0 to sizeof(int)\r\r"
    ∷ codes
        "  Example 25 01 00 00 02 00 00 00 10 00 which is insert at memory position 2, in alloc_id 01, 10 bytes \r"
    ∷ codes
        "  The BinaryData to insert is expected in the following BinaryData packet following this command.\r\rReturn: IALLOC ALLOC_ID ERROR_ID\r"
    ∷ codes "  Where IALLOC is 1 byte value 25\r"
    ∷ codes
        "  Where ALLOC_ID is 1 byte 0 to 20, 0 indicating an error, 1 to 20 alloc_id requested\r"
    ∷ codes "  Where ERROR_NUM is 1 byte, 0 no error, 1 invalid params,\r"
    ∷ codes "  2 unable to allocate memory on pi, 3 insert out side allocation memory\r"
    ∷ codes
        "  Example 25 01 00 inserted the following BinaryData packet data into alloc_id 01 with no errors\r\n"
    ∷ []

unfoldable pub command_insert_alloc_help : Queue → Bool × Queue
command_insert_alloc_help out_queue = write_out_help_text_array out_queue insert_alloc_text

abbrev pub cut_alloc_text : List (List ℕ)
cut_alloc_text =
    codes "\rXALLOC\r\r"
    ∷ codes "Function: API call that cuts a chunk of data from a memory allocation on the pi.\r\r"
    ∷ codes "Format: XALLOC ALLOC_ID CUT_FROM CUT_LENGTH \r\r"
    ∷ codes "  Where XALLOC is 1 byte value 26\r"
    ∷ codes "  Where ALLOC_ID is 1 bytes value 1 to 20\r"
    ∷ codes
        "  Where CUT_FROM is 4 bytes format high16bit(lo/high) low16bit(lo/high) range 0 to sizeof(int)\r"
    ∷ codes
        "  Where CUT_LENGTH is 4 bytes format high16bit(lo/high) low16bit(lo/high) range 0 to sizeof(int)\r\r"
    ∷ codes
        "  Example 26 01 00 00 08 00 00 00 10 00 which is cut from memory position 8, in alloc_id 01, 10 bytes \r"
    ∷ codes "Return: XALLOC ALLOC_ID ERROR_ID\r"
    ∷ codes "  Where XALLOC is 1 byte value 26\r"
    ∷ codes
        "  Where ALLOC_ID is 1 byte 0 to 20, 0 indicating an error, 1 to 20 alloc_id requested\r"
    ∷ codes
        "  Where ERROR_NUM is 1 byte, 0 no error, 1 invalid params, 2 cut outside memory allocation\r"
    ∷ codes "  Example 26 01 00 cut data requested from alloc_id 01 with no errors\r\n"
    ∷ []

unfoldable pub command_cut_alloc_help : Queue → Bool × Queue
command_cut_alloc_help out_queue = write_out_help_text_array out_queue cut_alloc_text

abbrev pub load_alloc_text : List (List ℕ)
load_alloc_text =
    codes "\rPILALLOC\r\r"
    ∷ codes
        "Function: API call that loads a file from the pi storage into a memory allocation on the pi.\r\r"
    ∷ codes "Format: PILALLOC ALLOC_ID /PATH/TO/FILE\n\r\r"
    ∷ codes "  Where PILALLOC is 1 byte value 27\r"
    ∷ codes "  Where ALLOC_ID is 1 bytes value 1 to 20\r"
    ∷ codes "  Where /PATH/TO/FILE is a \n terminated string\r\r"
    ∷ codes "  Example 27 01 BINARY_STRING_OF_TEXT 10 which is load file into allocation 01\r"
    ∷ codes "Return: PILALLOC ALLOC_ID FILE_SIZE ERROR_ID\r"
    ∷ codes "  Where PILALLOC is 1 byte value 27\r"
    ∷ codes
        "  Where ALLOC_ID is 1 byte 0 to 20, 0 indicating an error, 1 to 20 alloc_id requested\r"
    ∷ codes
        "  Where FILE_SIZE is 4 bytes format high16bit(lo/high) low16bit(lo/high) range 0 to sizeof(int) of file loaded\r"
    ∷ codes
        "  Where ERROR_NUM is 1 byte, 0 no error, 1 invalid params, 2 unable to load file, 3 file to large for allocation\r"
    ∷ codes
        "  Example 27 01 00 00 FF 7F 00 loaded the file, 32K in size into memory alloc_id 01 with no errors\r\n"
    ∷ []

unfoldable pub command_load_alloc_help : Queue → Bool × Queue
command_load_alloc_help out_queue = write_out_help_text_array out_queue load_alloc_text

abbrev pub save_alloc_text : List (List ℕ)
save_alloc_text =
    codes "\rPISALLOC\r\r"
    ∷ codes "Function: API call that saves a file from a pi memory allocation to pi storage.\r\r"
    ∷ codes "Format: PISALLOC ALLOC_ID FILE_SIZE /PATH/TO/FILE\n\r\r"
    ∷ codes "  Where PISALLOC is 1 byte value 28\r"
    ∷ codes "  Where ALLOC_ID is 1 bytes value 1 to 20\r"
    ∷ codes
        "  Where FILE_SIZE is 4 bytes format high16bit(lo/high) low16bit(lo/high) range 0 to sizeof(int)\r"
    ∷ codes "  of bytes to save from the pi memory allocation to the file on pi storage\r"
    ∷ codes "  Where /PATH/TO/FILE is a \n terminated string of the file to save too.\r\r"
    ∷ codes
        "  Example 28 01 00 00 FF 04 BINARY_STRING_OF_TEXT 10 which is save a 1K file from allocation 01 to file name\r"
    ∷ codes "Return: PISALLOC ALLOC_ID ERROR_ID\r"
    ∷ codes "  Where PISALLOC is 1 byte value 28\r"
    ∷ codes
        "  Where ALLOC_ID is 1 byte 0 to 20, 0 indicating an error, 1 to 20 alloc_id requested\r"
    ∷ codes "  Where ERROR_NUM is 1 byte, 0 no error, 1 invalid params, 2 unable to save file\r"
    ∷ codes "  Example 28 01 00 save the allocation 01 to the requested file with no errors\r\n"
    ∷ []

unfoldable pub command_save_alloc_help : Queue → Bool × Queue
command_save_alloc_help out_queue = write_out_help_text_array out_queue save_alloc_text
